-- ===== src/Db/Queue/Purging.antt =====
-- What the retention sweep removes (internal/db/repo.go).
use sftp_relay.Base.{
  ℕ, ◌<◌, Bool, true, false, not, Option, none, some, List, [], ◌∷◌, keep, first, ◌==◌, ==_iff,
  if◌then◌else◌, ◌≡◌, refl, ap, ◌∙◌, subst, Bool-cases, inl, inr, arith, All, All-keep, not_found,
  Result, ok, err,
}
use sftp_relay.Db.Rows.{Server, Job, Database, has_server, has_job}
use sftp_relay.Db.Servers.{or_not_found}
use sftp_relay.Db.Queue.{join_row, joined, get_job, is_purged, purge_jobs}
use sftp_relay.Db.Queue.Lookup.{named}
use sftp_relay.Db.Order.{Newest}
use sftp_relay.Db.Writes.Tables.{IsSound, job_id}

abbrev drop_if : (Job → Bool) → Option Job → Option Job
drop_if p none = none
drop_if p (some j) = if p j then none else some j

absent_row :
    (i : ℕ) (o : Option Server) (j : Job) (rest : List Job)
    → (j.id == i) ≡ false
    → first (has_job i) rest ≡ none
    → first (has_job i) (join_row o j rest) ≡ none
absent_row i none j rest n h = h
absent_row i (some s) j rest n h = rw n h

below : (a b : ℕ) → a < b → (a == b) ≡ false
below a b h = ground arith

-- A row whose id is above all the others is not among them.
absent :
    (i : ℕ) (ss : List Server) (js : List Job)
    → All (λ k. k.id < i) js
    → first (has_job i) (joined ss js) ≡ none
unfolding joined
absent i ss [] h = refl
absent i ss (j ∷ js) (h, hs) =
    absent_row i (first (has_server j.server_id) ss) j (joined ss js) (below j.id i h)
      (absent i ss js hs)

module _ (p : Job → Bool) (ignores_name : (j : Job) (s : Server) → p (named s.name j) ≡ p j) where
  own_row :
      (i : ℕ) (o : Option Server) (j : Job) (before after : List Job)
      → (j.id == i) ≡ true
      → first (has_job i) before ≡ none
      → first (has_job i) after ≡ none
      → (if p j then first (has_job i) after else first (has_job i) (join_row o j after))
        ≡ drop_if p (first (has_job i) (join_row o j before))
  own_row i none j before after e b a =
      rw (b, a) (elim (Bool-cases (p j)) [ inl t ↦ rw t refl | inr f ↦ rw f refl ])
  own_row i (some s) j before after e b a =
      rw (e, ignores_name j s, a)
        (elim (Bool-cases (p j)) [ inl t ↦ rw t refl | inr f ↦ rw f refl ])

  other_row :
      (i : ℕ) (o : Option Server) (j : Job) (before after : List Job)
      → (j.id == i) ≡ false
      → first (has_job i) after ≡ drop_if p (first (has_job i) before)
      → (if p j then first (has_job i) after else first (has_job i) (join_row o j after))
        ≡ drop_if p (first (has_job i) (join_row o j before))
  other_row i none j before after n h = elim (Bool-cases (p j)) [ inl t ↦ rw t h | inr f ↦ rw f h ]
  other_row i (some s) j before after n h =
      rw n (elim (Bool-cases (p j)) [ inl t ↦ rw t h | inr f ↦ rw f h ])

  split_row :
      (i : ℕ) (ss : List Server) (j : Job) (js : List Job)
      → first (has_job i) (joined ss (keep (λ k. not (p k)) (j ∷ js))) ≡ (
          if p j
          then first (has_job i) (joined ss (keep (λ k. not (p k)) js))
          else first (has_job i) (
              join_row
                (first (has_server j.server_id) ss)
                j
                (joined ss (keep (λ k. not (p k)) js))))
  unfolding joined
  split_row i ss j js = elim (Bool-cases (p j)) [ inl t ↦ rw t refl | inr f ↦ rw f refl ]

  first-kept :
      (i : ℕ) (ss : List Server) (js : List Job)
      → Newest job_id js
      → first (has_job i) (joined ss (keep (λ k. not (p k)) js))
        ≡ drop_if p (first (has_job i) (joined ss js))
  unfolding joined
  first-kept i ss [] h = refl
  first-kept i ss (j ∷ js) (h, hs) =
      let o = first (has_server j.server_id) ss in
      let after = joined ss (keep (λ k. not (p k)) js) in
      split_row i ss j js ∙ elim (Bool-cases (j.id == i)) [
        | inr n ↦ other_row i o j (joined ss js) after n (first-kept i ss js hs)
        | inl e ↦
            let below_i = subst (λ n. All (λ k. k.id < n) js) ((==_iff j.id i).0 e) h in
            own_row i o j (joined ss js) after e (absent i ss js below_i) (
              absent i ss (keep (λ k. not (p k)) js)
                (All-keep (λ k. k.id < i) (λ k. not (p k)) js below_i))
      ]

-- What is left of the answer of `GetJob`.
abbrev pub after_purge : ℕ → ℕ → ℕ → Result Job → Result Job
after_purge now days i (err e) = err e
after_purge now days i (ok row) = if is_purged now days row then err (not_found i) else ok row

or_not_found-drop_if :
    (now days i : ℕ) (o : Option Job)
    → or_not_found i (drop_if (is_purged now days) o) ≡ after_purge now days i (or_not_found i o)
or_not_found-drop_if now days i none = refl
or_not_found-drop_if now days i (some j) = elim (Bool-cases (is_purged now days j)) [
  | inl t ↦ rw t refl
  | inr f ↦ rw f refl
]

-- In sound tables the retention sweep removes exactly the jobs that are done, failed or cancelled and
-- were created more than so many days ago; every other job reads as before.
pub purge_jobs-get_job :
    (now days i : ℕ) (db : Database)
    → IsSound db
    → get_job i (purge_jobs now days db).0 ≡ after_purge now days i (get_job i db)
unfolding purge_jobs get_job
purge_jobs-get_job now days i db sound =
    ap (or_not_found i)
      (first-kept (is_purged now days) (λ j s. refl) i db.servers db.jobs sound.job_order)
    ∙ or_not_found-drop_if now days i (first (has_job i) (joined db.servers db.jobs))
