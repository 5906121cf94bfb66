-- ===== src/Db/Queue/Rows.antt =====
-- What `GetJob` returns after an insert and after the restart recovery (internal/db/repo.go).
use mathlib.Core.Option
use mathlib.Core.Bool.{false≢true}
use sftp_relay.Base.{
  ℕ, suc, String, Option, none, some, ◌∷◌, map, true, first, ◌==◌, if◌then◌else◌, ◌≡◌, ◌≢◌, refl,
  sym, ap, ◌∙◌, arith, Bool-cases, ◌||◌, ◌⊎◌, inl, inr, eq_iff, Result, ok, err,
}
use sftp_relay.Db.Rows.{Server, Job, Database, has_server, has_job}
use sftp_relay.Db.Servers.{or_not_found, get_server}
use sftp_relay.Db.Queue.{
  joined, get_job, create_job, inserted, kind_allowed, status_allowed, interrupted, is_running,
  is_waiting, interrupt_running_jobs,
}
use sftp_relay.Db.Queue.Lookup.{IsLocal, named, joined-map, first-map, or_not_found_if, if-map}

pub found_server : (id : ℕ) (o : Option Server) (s : Server) → or_not_found id o ≡ ok s → o ≡ some s
found_server id none s h = cc
found_server id (some t) s h = cc

-- A job that is created for a server that exists is what `GetJob` then returns under the new id, with
-- no progress and no outcome, and under the server's name; every other id reads as before.
pub create_job-get_job :
    (now : ℕ) (j : Job) (db : Database) (s : Server)
    → get_server j.server_id db ≡ ok s
    → kind_allowed j.kind ≡ true
    → status_allowed j.status ≡ true
    → (after : Database) × (create_job now j db ≡ ok (suc db.last_job, after))
      × ((i : ℕ)
          → get_job i after ≡ (
              if suc db.last_job == i
              then ok (named s.name (inserted (suc db.last_job) now j))
              else get_job i db))
unfolding create_job get_job get_server
create_job-get_job now j db s found kind status =
    let present = found_server j.server_id (first (has_server j.server_id) db.servers) s found in
    (
      record db { jobs = inserted (suc db.last_job) now j ∷ db.jobs; last_job = suc db.last_job },
      rw (present, kind, status),
      λ i. rw present (or_not_found_if i (suc db.last_job == i) _ _),
    )

abbrev pub map_ok : (Job → Job) → Result Job → Result Job
map_ok f (ok j) = ok (f j)
map_ok f (err e) = err e

or_not_found-map :
    (i : ℕ) (f : Job → Job) (o : Option Job)
    → or_not_found i (Option.map f o) ≡ map_ok f (or_not_found i o)
or_not_found-map i f none = refl
or_not_found-map i f (some j) = refl

get_job-map :
    (f : Job → Job)
    → IsLocal f
    → (i : ℕ) (db : Database)
    → get_job i (record db { jobs = map f db.jobs }) ≡ map_ok f (get_job i db)
unfolding get_job
get_job-map f loc i db =
    ap (λ l. or_not_found i (first (has_job i) l)) (joined-map f loc db.servers db.jobs)
    ∙ ap (or_not_found i) (first-map f loc i (joined db.servers db.jobs))
    ∙ or_not_found-map i f (first (has_job i) (joined db.servers db.jobs))

interrupted-IsLocal : IsLocal interrupted
interrupted-IsLocal = record {
  same_id = λ j. ground arith;
  same_server = λ j. ground arith;
  commutes = λ n j. if-map (named n) (is_running j) _ j;
}

interrupted_ne_running : ◌≢◌ {A = String} "interrupted" "running"
interrupted_ne_running p = false≢true ((eq_iff "interrupted" "running").1 p)

not_running : (row : Job) → (interrupted row).status ≢ "running"
not_running row e = elim (Bool-cases (is_running row)) [
  | inl t ↦ interrupted_ne_running (rw t at e)
  | inr f ↦ false≢true (sym f ∙ (eq_iff row.status "running").1 (rw f at e))
]

waiting_again : (row : Job) → is_waiting (interrupted row) ≡ (is_running row || is_waiting row)
waiting_again row = elim (Bool-cases (is_running row)) [ inl t ↦ rw t | inr f ↦ rw f ]

running_or_untouched : (row : Job) → (row.status ≡ "running") ⊎ (interrupted row ≡ row)
running_or_untouched row = elim (Bool-cases (is_running row)) [
  | inl t ↦ inl ((eq_iff row.status "running").0 t)
  | inr f ↦ inr (rw f)
]

-- The restart recovery leaves no job running: a job that was running or waiting now waits for a worker,
-- no other does, and a job that was not running reads as before.
pub interrupt_running_jobs-get_job :
    (i : ℕ) (db : Database) (row : Job)
    → get_job i db ≡ ok row
    → (after : Job) × (get_job i (interrupt_running_jobs db).0 ≡ ok after)
      × (after.status ≢ "running")
      × (is_waiting after ≡ (is_running row || is_waiting row))
      × ((row.status ≡ "running") ⊎ (after ≡ row))
unfolding interrupt_running_jobs
interrupt_running_jobs-get_job i db row h = (
  interrupted row,
  get_job-map interrupted interrupted-IsLocal i db ∙ ap (map_ok interrupted) h,
  not_running row,
  waiting_again row,
  running_or_untouched row,
)
