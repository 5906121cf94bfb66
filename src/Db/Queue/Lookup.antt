-- ===== src/Db/Queue/Lookup.antt =====
-- What `GetJob` returns after each write of internal/db/repo.go.
use mathlib.Core.Option
use sftp_relay.Base.{
  ℕ, String, Option, none, some, List, [], ◌∷◌, map, Bool, true, false, ◌&&◌, first, ◌==◌, ==_iff,
  if◌then◌else◌, ◌≡◌, refl, sym, ap, ◌∙◌, arith, Bool-cases, Option-cases, inl, inr, Result, ok,
  Text,
}
use sftp_relay.Base.Int.{ℤ}
use sftp_relay.Db.Rows.{Server, Job, Message, Database, has_server, has_job}
use sftp_relay.Db.Servers.{or_not_found, is_present}
use sftp_relay.Db.Queue.{
  join_row, joined, get_job, at_job, update_job, with_status, set_job_status, with_progress,
  set_job_progress, status_allowed,
}

abbrev pub named : Text → Job → Job
named n j = record j { server_name = n }

-- An update that touches neither the keys nor the joined name.
pub record IsLocal (f : Job → Job) : Type 0 where
  pub same_id : (j : Job) → (f j).id ≡ j.id
  pub same_server : (j : Job) → (f j).server_id ≡ j.server_id
  pub commutes : (n : Text) (j : Job) → named n (f j) ≡ f (named n j)

pub if-map {ℓ κ} :
    {A : Type ℓ} {B : Type κ} (f : A → B) (b : Bool) (x y : A)
    → f (if b then x else y) ≡ (if b then f x else f y)
if-map f true x y = refl
if-map f false x y = refl

pub if_same {ℓ} : {A : Type ℓ} (b : Bool) (x : A) → (if b then x else x) ≡ x
if_same true x = refl
if_same false x = refl

module _ (f : Job → Job) (loc : IsLocal f) where
  commutes_if :
      (n : Text) (j : Job) (b : Bool)
      → named n (if b then f j else j) ≡ (if b then f (named n j) else named n j)
  commutes_if n j true = loc.commutes n j
  commutes_if n j false = refl

  pub at_job-IsLocal : (id : ℕ) → IsLocal (at_job id f)
  at_job-IsLocal id = record {
    same_id = λ j. ground (arith, loc.same_id j);
    same_server = λ j. ground (arith, loc.same_server j);
    commutes = λ n j. commutes_if n j (j.id == id);
  }

  join_row-map :
      (o : Option Server) (j : Job) (rest : List Job)
      → join_row o (f j) (map f rest) ≡ map f (join_row o j rest)
  join_row-map none j rest = refl
  join_row-map (some s) j rest = ap (λ k. k ∷ map f rest) (loc.commutes s.name j)

  pub joined-map : (ss : List Server) (js : List Job) → joined ss (map f js) ≡ map f (joined ss js)
  unfolding joined
  joined-map ss [] = refl
  joined-map ss (j ∷ js) =
      ap (λ k. join_row (first (has_server k) ss) (f j) (joined ss (map f js))) (loc.same_server j)
      ∙ ap (join_row (first (has_server j.server_id) ss) (f j)) (joined-map ss js)
      ∙ join_row-map (first (has_server j.server_id) ss) j (joined ss js)

  pub first-map :
      (i : ℕ) (js : List Job) → first (has_job i) (map f js) ≡ Option.map f (first (has_job i) js)
  first-map i [] = refl
  first-map i (j ∷ js) =
      ap (λ k. if k == i then some (f j) else first (has_job i) (map f js)) (loc.same_id j)
      ∙ ap (λ o. if j.id == i then some (f j) else o) (first-map i js)
      ∙ sym (if-map (Option.map f) (j.id == i) (some j) (first (has_job i) js))

id-of-first : (i : ℕ) (js : List Job) (j : Job) → first (has_job i) js ≡ some j → j.id ≡ i
id-of-first i [] j h = cc
id-of-first i (k ∷ js) j h = elim (Bool-cases (k.id == i)) [
  | inl e ↦ ground (arith, h, e)
  | inr e ↦ id-of-first i js j (rw e at h)
]

module _ (id : ℕ) (f : Job → Job) where
  -- The row of the updated job, and of any other.
  at_job_of :
      (i : ℕ) (js : List Job)
      → Option.map (at_job id f) (first (has_job i) js)
        ≡ (if i == id then Option.map f (first (has_job i) js) else first (has_job i) js)
  at_job_of i js = elim (Option-cases (first (has_job i) js)) [
    | inl e ↦ rw e (sym (if_same (i == id) none))
    | inr (j, e) ↦ rw e (
        ap (λ k. some (if k == id then f j else j)) (id-of-first i js j e)
        ∙ if-map some (i == id) (f j) j)
  ]

skip_row :
    (i : ℕ) (o : Option Server) (k : Job) (rest : List Job)
    → (k.id == i) ≡ false
    → first (has_job i) (join_row o k rest) ≡ first (has_job i) rest
skip_row i none k rest e = refl
skip_row i (some s) k rest e = rw e

pub present_of_joined :
    (i : ℕ) (ss : List Server) (js : List Job) (j : Job)
    → first (has_job i) (joined ss js) ≡ some j
    → is_present (first (has_job i) js) ≡ true
unfolding joined
present_of_joined i ss [] j h = cc
present_of_joined i ss (k ∷ js) j h = elim (Bool-cases (k.id == i)) [
  | inl e ↦ rw e
  | inr e ↦ rw e (
      present_of_joined i ss js j
        (sym (skip_row i (first (has_server k.server_id) ss) k (joined ss js) e) ∙ h))
]

and_false : (b : Bool) → (b && false) ≡ false
and_false true = refl
and_false false = refl

-- What a successful update does to the answers of `GetJob`.
abbrev pub Updates : ℕ → (Job → Job) → Job → Database → Result Database → Type 0
Updates id f j before result =
    (after : Database) × (result ≡ ok after)
    × ((i : ℕ) → get_job i after ≡ (if i == id then ok (f j) else get_job i before))
    × (after.servers ≡ before.servers)
    × (after.settings ≡ before.settings)

or_not_found_ok : (id : ℕ) (o : Option Job) (j : Job) → or_not_found id o ≡ ok j → o ≡ some j
or_not_found_ok id none j h = cc
or_not_found_ok id (some k) j h = cc

pub found_of_get_job :
    (id : ℕ) (db : Database) (j : Job)
    → get_job id db ≡ ok j
    → first (has_job id) (joined db.servers db.jobs) ≡ some j
unfolding get_job
found_of_get_job id db j h = or_not_found_ok id (first (has_job id) (joined db.servers db.jobs)) j h

pub or_not_found_if :
    (i : ℕ) (b : Bool) (x y : Option Job)
    → or_not_found i (if b then x else y) ≡ (if b then or_not_found i x else or_not_found i y)
or_not_found_if i true x y = refl
or_not_found_if i false x y = refl

updated_row :
    (id i : ℕ) (f : Job → Job) (rows : List Job) (j : Job)
    → first (has_job id) rows ≡ some j
    → (if i == id
        then or_not_found i (Option.map f (first (has_job i) rows))
        else or_not_found i (first (has_job i) rows))
      ≡ (if i == id then ok (f j) else or_not_found i (first (has_job i) rows))
updated_row id i f rows j h = elim (Bool-cases (i == id)) [
  | inl e ↦ rw e (
      ap (λ k. or_not_found i (Option.map f (first (has_job k) rows))) ((==_iff i id).0 e)
      ∙ ap (λ o. or_not_found i (Option.map f o)) h)
  | inr e ↦ rw e
]

module _ (f : Job → Job) (loc : IsLocal f) where
  pub update_job-Updates :
      (id : ℕ) (db : Database) (j : Job)
      → get_job id db ≡ ok j
      → Updates id f j db (update_job id f db)
  unfolding get_job
  update_job-Updates id db j h = (
    record db { jobs = map (at_job id f) db.jobs },
    rw (present_of_joined id db.servers db.jobs j (found_of_get_job id db j h)),
    λ i.
        let rows = joined db.servers db.jobs in
        let local_ = at_job-IsLocal f loc id in
        ap (λ l. or_not_found i (first (has_job i) l))
          (joined-map (at_job id f) local_ db.servers db.jobs)
        ∙ ap (or_not_found i) (first-map (at_job id f) local_ i rows)
        ∙ ap (or_not_found i) (at_job_of id f i rows)
        ∙ or_not_found_if i (i == id) (Option.map f (first (has_job i) rows))
            (first (has_job i) rows)
        ∙ updated_row id i f rows j (found_of_get_job id db j h),
    refl,
    refl,
  )

with_status-IsLocal :
    (now : ℕ) (status : String) (msg : Message) (code : Option ℤ)
    → IsLocal (with_status now status msg code)
with_status-IsLocal now status msg code = record {
  same_id = λ j. refl;
  same_server = λ j. refl;
  commutes = λ n j. refl;
}

with_progress-IsLocal : (transferred speed eta : ℤ) → IsLocal (with_progress transferred speed eta)
with_progress-IsLocal transferred speed eta = record {
  same_id = λ j. refl;
  same_server = λ j. refl;
  commutes = λ n j. refl;
}

-- `SetJobStatus` with a status that the table accepts updates the row of an existing job and no
-- other.
pub set_job_status-Updates :
    (now id : ℕ) (status : String) (msg : Message) (code : Option ℤ) (db : Database) (j : Job)
    → status_allowed status ≡ true
    → get_job id db ≡ ok j
    → Updates id (with_status now status msg code) j db (set_job_status now id status msg code db)
unfolding set_job_status
set_job_status-Updates now id status msg code db j allowed h =
    rw (allowed, and_false (is_present (first (has_job id) db.jobs)))
      (update_job-Updates (with_status now status msg code)
        (with_status-IsLocal now status msg code) id db j h)

pub set_job_progress-Updates :
    (id : ℕ) (transferred speed eta : ℤ) (db : Database) (j : Job)
    → get_job id db ≡ ok j
    → Updates id
        (with_progress transferred speed eta)
        j
        db
        (set_job_progress id transferred speed eta db)
unfolding set_job_progress
set_job_progress-Updates id transferred speed eta db j h =
    update_job-Updates (with_progress transferred speed eta)
      (with_progress-IsLocal transferred speed eta) id db j h
