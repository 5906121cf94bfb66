-- ===== src/Db/Logs/Ring.antt =====
-- The log of a job as a ring of its newest lines (internal/db/repo.go).
use mathlib.Core.List.{reverse, reverse-reverse}
use sftp_relay.Base.{
  ℕ, zero, suc, ◌<◌, true, false, List, [], ◌∷◌, keep, map, take, ◌==◌, ==_iff, ==_refl,
  if◌then◌else◌, ◌≡◌, refl, sym, ap, ◌∙◌, Bool-cases, inl, inr, arith, Text, All, All-imp, ok,
}
use sftp_relay.Db.Rows.{LogLine, Database}
use sftp_relay.Db.Logs.{has_id, of_job, newest_ids, survives, append_job_log, job_log}
use sftp_relay.Db.Order.{Newest, Newest-keep}
use sftp_relay.Db.Writes.Keys.{has_row}
use sftp_relay.Db.Writes.Tables.{IsSound, InRange, line_id}

-- The lines of the job that stay are those whose ids are among the newest.
keep_surviving :
    (id : ℕ) (ids : List ℕ) (ls : List LogLine)
    → keep (of_job id) (keep (survives id ids) ls)
      ≡ keep (λ l. has_id l.id ids) (keep (of_job id) ls)
keep_surviving id ids [] = refl
keep_surviving id ids (l ∷ ls) =
    let rest = keep_surviving id ids ls in
    elim (Bool-cases (l.job_id == id)) [
      | inr e ↦ rw (e, e) rest
      | inl e ↦ elim (Bool-cases (has_id l.id ids)) [
        | inl f ↦ rw (e, f, e) (ap (λ r. l ∷ r) rest)
        | inr f ↦ rw (e, f) rest
      ]
    ]

other_job :
    (l : LogLine) (i id : ℕ) → (l.job_id == i) ≡ true → (i == id) ≡ false → (l.job_id == id) ≡ false
other_job l i id e n = ground (arith, e, n)

-- The lines of another job all stay.
keep_others :
    (id i : ℕ) (ids : List ℕ) (ls : List LogLine)
    → (i == id) ≡ false
    → keep (of_job i) (keep (survives id ids) ls) ≡ keep (of_job i) ls
keep_others id i ids [] n = refl
keep_others id i ids (l ∷ ls) n =
    let rest = keep_others id i ids ls n in
    elim (Bool-cases (l.job_id == i)) [
      | inl e ↦ rw (other_job l i id e n, e) (ap (λ r. l ∷ r) rest)
      | inr e ↦ elim (Bool-cases (survives id ids l)) [
        | inl f ↦ rw (e, f, e) rest
        | inr f ↦ rw (e, f) rest
      ]
    ]

not_top : (i top : ℕ) → i < top → (i == top) ≡ false
not_top i top h = ground arith

other_way : (i j : ℕ) → (i == j) ≡ false → (j == i) ≡ false
other_way i j h = ground (arith, h)

keep_older :
    (top : ℕ) (ids : List ℕ) (ls : List LogLine)
    → All (λ l. l.id < top) ls
    → keep (λ l. has_id l.id (top ∷ ids)) ls ≡ keep (λ l. has_id l.id ids) ls
keep_older top ids [] h = refl
keep_older top ids (l ∷ ls) (h, hs) =
    rw (not_top l.id top h)
      (ap (λ r. if has_id l.id ids then l ∷ r else r) (keep_older top ids ls hs))

keep_none : (ls : List LogLine) → keep (λ l. has_id l.id []) ls ≡ []
keep_none [] = refl
keep_none (l ∷ ls) = keep_none ls

keep-Newest :
    (n : ℕ) (ls : List LogLine)
    → Newest line_id ls
    → keep (λ l. has_id l.id (take n (map line_id ls))) ls ≡ take n ls
keep-Newest zero ls h = keep_none ls
keep-Newest (suc n) [] h = refl
keep-Newest (suc n) (l ∷ ls) (h, hs) =
    rw (==_refl l.id)
      (ap (λ r. l ∷ r) (keep_older l.id (take n (map line_id ls)) ls h ∙ keep-Newest n ls hs))

map-take :
    (n : ℕ) (ls : List LogLine) → map (λ l. l.line) (take n ls) ≡ take n (map (λ l. l.line) ls)
map-take zero ls = refl
map-take (suc n) [] = refl
map-take (suc n) (l ∷ ls) = ap (λ r. l.line ∷ r) (map-take n ls)

module _ (id : ℕ) (line : Text) (limit : ℕ) (db : Database) (there : has_row db.jobs id ≡ true)
    (sound : IsSound db) where
  abbrev new_line : LogLine
  new_line = record { id = suc db.last_log; job_id = id; line = line }

  abbrev longer : List LogLine
  longer = new_line ∷ db.log

  longer-Newest : Newest line_id longer
  longer-Newest = (
    All-imp (λ k. InRange db.last_log k.id) (λ k. k.id < suc db.last_log)
        (λ k r. omega (arith, r.1)) db.log sound.log_range,
    sound.log_order,
  )

  own_lines :
      keep (of_job id) (keep (survives id (newest_ids id limit longer)) longer)
      ≡ take limit (new_line ∷ keep (of_job id) db.log)
  own_lines =
      keep_surviving id (newest_ids id limit longer) longer
      ∙ keep-Newest limit (keep (of_job id) longer)
          (Newest-keep line_id (of_job id) longer longer-Newest)
      ∙ ap
          (λ b.
            take limit (if b then new_line ∷ keep (of_job id) db.log else keep (of_job id) db.log))
          (==_refl id)

  other_lines :
      (i : ℕ)
      → (i == id) ≡ false
      → keep (of_job i) (keep (survives id (newest_ids id limit longer)) longer)
        ≡ keep (of_job i) db.log
  other_lines i n =
      keep_others id i (newest_ids id limit longer) longer n
      ∙ ap (λ b. if b then new_line ∷ keep (of_job i) db.log else keep (of_job i) db.log)
          (other_way i id n)

  -- In sound tables, a line that is appended to the log of an existing job goes behind its lines, of
  -- which the newest `limit` stay; the logs of all other jobs stay as they are.
  pub append_job_log-job_log :
      (after : Database) × (append_job_log id line limit db ≡ ok after)
      × ((i : ℕ)
          → job_log i after ≡ (
              if i == id
              then reverse (take limit (line ∷ reverse (job_log id db)))
              else job_log i db))
  unfolding append_job_log job_log
  append_job_log-job_log = (
    record db {
      log = keep (survives id (newest_ids id limit longer)) longer;
      last_log = suc db.last_log;
    },
    rw there refl,
    λ i. elim (Bool-cases (i == id)) [
      | inr n ↦ rw n (ap (λ ls. reverse (map (λ l. l.line) ls)) (other_lines i n))
      | inl e ↦ rw e (
          ap
            (λ k. reverse (
              map (λ l. l.line)
                (keep (of_job k) (keep (survives id (newest_ids id limit longer)) longer))))
            ((==_iff i id).0 e)
          ∙ ap (λ ls. reverse (map (λ l. l.line) ls)) own_lines
          ∙ ap reverse (map-take limit (new_line ∷ keep (of_job id) db.log))
          ∙ ap (λ r. reverse (take limit (line ∷ r)))
              (sym (reverse-reverse (map (λ l. l.line) (keep (of_job id) db.log)))))
    ],
  )
