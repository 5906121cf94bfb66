-- ===== src/Api/Jobs/Paging.antt =====
-- The pages of the job list (internal/api/jobs.go).
use sftp_relay.Base.{
  Option, none, some, first, All-imp, ℕ, zero, suc, ◌≤◌, ◌<◌, String, true, false, ◌||◌, List, [],
  ◌∷◌, ◌++◌, keep, take, length, ltb, ◌==◌, if◌then◌else◌, ◌≡◌, refl, sym, ap, ◌∙◌, subst,
  Bool-cases, inl, inr, arith, All, All-keep, All-take,
}
use sftp_relay.Db.Rows.{Server, Job, Database, has_server}
use sftp_relay.Db.Order.{Newest-keep}
use sftp_relay.Db.Writes.Tables.{IsSound, InRange}
use sftp_relay.Db.Queue.{join_row, joined, list_jobs, on_page}
use sftp_relay.Api.Jobs.{last_id, next_cursor}
use sftp_relay.Api.Jobs.Rows.{
  Descending, drop, take-drop, take_short, length-drop-lt, last_id_of, not_below, keep_after,
  on_later_page, keep_both, if_false, length-take-long, not_short,
}

-- A client that follows `next_cursor` from some cursor, over at most so many pages.
unfoldable pub pages : ℕ → String → ℕ → ℕ → Database → List Job
unfolding list_jobs next_cursor
pages zero status limit cursor db = []
pages (suc n) status limit cursor db =
    let rows = list_jobs status limit cursor db in
    let next = next_cursor rows limit in
    let rest = pages n status limit next db in if next == 0 then rows else rows ++ rest

module _ (status : String) (n : ℕ) (db : Database)
    (newest_first : Descending (joined db.servers db.jobs))
    (positive : All (λ j. 1 ≤ j.id) (joined db.servers db.jobs)) where
  abbrev rows_from : ℕ → List Job
  rows_from cursor = keep (on_page status cursor) (joined db.servers db.jobs)

  abbrev page : ℕ → List Job
  page cursor = take (suc n) (rows_from cursor)

  passes :
      (cursor : ℕ) (js : List Job)
      → All (λ j. (cursor == 0 || ltb j.id cursor) ≡ true) (keep (on_page status cursor) js)
  passes cursor [] = tt
  passes cursor (j ∷ js) = elim (Bool-cases (on_page status cursor j)) [
    | inl e ↦ rw e (ground (arith, e), passes cursor js)
    | inr e ↦ rw e (passes cursor js)
  ]

  nonzero : (i : ℕ) → 1 ≤ i → (i == 0) ≡ false
  nonzero i h = ground arith

  -- The last row of a page that is not empty.
  of_last :
      (P : ℕ → Type 0) (js : List Job)
      → 1 ≤ length js
      → All (λ j. P j.id) js
      → P (last_id (take (suc n) js))
  of_last P [] h a = absurd (omega (arith, h))
  of_last P (j ∷ js) h a = last_id_of P j (take n js) (All-take (λ k. P k.id) (suc n) (j ∷ js) a)

  next_rows :
      (cursor : ℕ)
      → suc n ≤ length (rows_from cursor)
      → rows_from (last_id (page cursor)) ≡ drop (suc n) (rows_from cursor)
  next_rows cursor full =
      let rows = joined db.servers db.jobs in
      let last = last_id (page cursor) in
      keep_both (on_page status cursor) (λ j. ltb j.id last) (on_page status last)
        (λ j.
          on_later_page status cursor last j
            (nonzero last (
              of_last (λ i. 1 ≤ i) (rows_from cursor) (omega (arith, full))
                (All-keep (λ j. 1 ≤ j.id) (on_page status cursor) rows positive)))
            (of_last (λ i. (cursor == 0 || ltb i cursor) ≡ true) (rows_from cursor)
              (omega (arith, full)) (passes cursor rows)))
        rows
      ∙ keep_after n (rows_from cursor)
          (Newest-keep (λ j. j.id) (on_page status cursor) rows newest_first) full

  length-take-full : (k : ℕ) (js : List Job) → k ≤ length js → length (take k js) ≡ k
  length-take-full zero js h = refl
  length-take-full (suc k) [] h = absurd (omega (arith, h))
  length-take-full (suc k) (j ∷ js) h = ap suc (length-take-full k js (omega (arith, h)))

  full_next :
      (cursor : ℕ)
      → suc n ≤ length (rows_from cursor)
      → next_cursor (page cursor) (suc n) ≡ last_id (page cursor)
  unfolding next_cursor
  full_next cursor full =
      rw (length-take-full (suc n) (rows_from cursor) full)
        (rw (not_below (suc n) (suc n) (omega arith), nonzero (suc n) (omega arith)) refl)

  full_nonzero :
      (cursor : ℕ) → suc n ≤ length (rows_from cursor) → (last_id (page cursor) == 0) ≡ false
  full_nonzero cursor full = nonzero (last_id (page cursor)) (
      of_last (λ i. 1 ≤ i) (rows_from cursor) (omega (arith, full))
        (All-keep (λ j. 1 ≤ j.id) (on_page status cursor) (joined db.servers db.jobs) positive))

  is_full :
      (cursor : ℕ) → ltb (length (page cursor)) (suc n) ≡ false → suc n ≤ length (rows_from cursor)
  is_full cursor h =
      length-take-long (suc n) (rows_from cursor) (not_short (length (page cursor)) (suc n) h)

  fewer :
      (cursor k : ℕ)
      → suc n ≤ length (rows_from cursor)
      → length (rows_from cursor) < suc k
      → length (rows_from (last_id (page cursor))) < k
  fewer cursor k full h =
      subst (λ l. length l < k) (sym (next_rows cursor full))
        (omega
          (arith, h, length-drop-lt (suc n) (rows_from cursor) (omega arith) (omega (arith, full))))

  pub pages-on_page :
      (k cursor : ℕ)
      → length (rows_from cursor) < k
      → pages k status (suc n) cursor db ≡ rows_from cursor
  unfolding pages list_jobs next_cursor
  pages-on_page zero cursor h = absurd (omega (arith, h))
  pages-on_page (suc k) cursor h = elim (Bool-cases (ltb (length (page cursor)) (suc n))) [
    | inl short ↦ rw short (take_short (suc n) (rows_from cursor) (ground (arith, short)))
    | inr long ↦
        let full = is_full cursor long in
        let last = last_id (page cursor) in
        ap (λ x. if x == 0 then page cursor else page cursor ++ pages k status (suc n) x db)
          (full_next cursor full)
        ∙ if_false (last == 0) (page cursor) (page cursor ++ pages k status (suc n) last db)
            (full_nonzero cursor full)
        ∙ ap (λ l. page cursor ++ l)
            (pages-on_page k last (fewer cursor k full h) ∙ next_rows cursor full)
        ∙ take-drop (suc n) (rows_from cursor)
  ]

-- The join leaves out rows and changes no id.
All-join_row :
    (P : ℕ → Type 0) (o : Option Server) (j : Job) (rest : List Job)
    → P j.id
    → All (λ k. P k.id) rest
    → All (λ k. P k.id) (join_row o j rest)
All-join_row P none j rest h hs = hs
All-join_row P (some s) j rest h hs = (h, hs)

Descending-join_row :
    (o : Option Server) (j : Job) (rest : List Job)
    → All (λ k. k.id < j.id) rest
    → Descending rest
    → Descending (join_row o j rest)
Descending-join_row none j rest h hs = hs
Descending-join_row (some s) j rest h hs = (h, hs)

All-joined :
    (P : ℕ → Type 0) (ss : List Server) (js : List Job)
    → All (λ j. P j.id) js
    → All (λ j. P j.id) (joined ss js)
unfolding joined
All-joined P ss [] h = tt
All-joined P ss (j ∷ js) (h, hs) =
    All-join_row P (first (has_server j.server_id) ss) j (joined ss js) h (All-joined P ss js hs)

Descending-joined : (ss : List Server) (js : List Job) → Descending js → Descending (joined ss js)
unfolding joined
Descending-joined ss [] h = tt
Descending-joined ss (j ∷ js) (h, hs) =
    Descending-join_row (first (has_server j.server_id) ss) j (joined ss js)
      (All-joined (λ i. i < j.id) ss js h) (Descending-joined ss js hs)

-- In sound tables, a client that follows `next_cursor` from the first page reads every job of the
-- status that it asks for exactly once, newest first, and then the pages end, if it may read more pages
-- than there are such jobs.
pub pages-IsSound :
    (status : String) (n : ℕ) (db : Database)
    → IsSound db
    → (k : ℕ) → length (keep (on_page status 0) (joined db.servers db.jobs)) < k
    → pages k status (suc n) 0 db ≡ keep (on_page status 0) (joined db.servers db.jobs)
pages-IsSound status n db sound k enough =
    pages-on_page status n db (Descending-joined db.servers db.jobs sound.job_order)
      (All-joined (λ i. 1 ≤ i) db.servers db.jobs
        (All-imp (λ j. InRange db.last_job j.id) (λ j. 1 ≤ j.id) (λ j r. r.0) db.jobs
          sound.job_range))
      k 0 enough
