-- ===== src/Jobs/Manager/Effects.antt =====
-- What `Cancel`, `Retry`, `Start` and the scheduler do to the rows (internal/jobs/manager.go).
use sftp_relay.Base.{
  ℕ, none, some, ◌∷◌, false, ◌==◌, ==_refl, if◌then◌else◌, ◌≡◌, ◌≢◌, refl, sym, ap, ◌∙◌, Bool-cases,
  Option-cases, inl, inr, ◌⊎◌, ok, err, Error, not_finished,
}
use sftp_relay.Db.Rows.{Job, Database, cancelled_by_user, blank}
use sftp_relay.Db.Queue.{get_job, with_status}
use sftp_relay.Db.Logs.{has_id}
use sftp_relay.Db.Queue.Lookup.{set_job_status-Updates}
use sftp_relay.Jobs.State.{status_queued, status_running, status_cancelled, transition, terminal}
use sftp_relay.Jobs.State.Machine.{terminal_refuses, terminal_iff}
use sftp_relay.Jobs.Manager.{Manager, seconds, cleanup}
use sftp_relay.Jobs.Manager.Schedule.{start_job, after_mark}
use sftp_relay.Jobs.Manager.Commands.{cancel_row, cancel, signal, retry}

signal_fields :
    (id : ℕ) (m : Manager)
    → ((signal id m).db ≡ m.db)
      × ((signal id m).workers ≡ m.workers)
      × ((signal id m).running ≡ m.running)
      × ((signal id m).kills ≡ (if has_id id m.running then id ∷ m.kills else m.kills))
unfolding cleanup
signal_fields id m = elim (Bool-cases (has_id id m.running)) [
  | inl r ↦ rw r (refl, refl, refl, refl)
  | inr r ↦ rw r (refl, refl, refl, refl)
]

-- `Cancel` of a job whose status may become cancelled: its row is cancelled and no other row changes,
-- and if it is running, the NAS is told to stop it.
pub cancel_row-get_job :
    (now id : ℕ) (m : Manager) (row : Job)
    → get_job id m.db ≡ ok row
    → transition row.status status_cancelled ≡ none
    → (m' : Manager) × (cancel_row now id m ≡ ok m')
      × ((i : ℕ)
          → get_job i m'.db ≡ (
              if i == id
              then ok (with_status (seconds now) status_cancelled cancelled_by_user none row)
              else get_job i m.db))
      × (m'.kills ≡ (if has_id id m.running then id ∷ m.kills else m.kills))
unfolding cancel_row
cancel_row-get_job now id m row found legal =
    let u =
      set_job_status-Updates (seconds now) id status_cancelled cancelled_by_user none m.db row refl
        found in
    let s = signal_fields id (record m { db = u.0 }) in
    (
      signal id (record m { db = u.0 }),
      rw (found, legal, u.1),
      λ i. ap (get_job i) s.0 ∙ u.2 i,
      s.3,
    )

-- A cancel of a job whose status does not allow it changes nothing, and reports why.
pub cancel_refused :
    (now id : ℕ) (m : Manager) (row : Job) (e : Error)
    → get_job id m.db ≡ ok row
    → transition row.status status_cancelled ≡ some e
    → cancel now id m ≡ err e
unfolding cancel cancel_row
cancel_refused now id m row e found refused = rw (found, refused)

-- Retrying a job that is not finished is refused, with the error that names its status.
pub retry_refused :
    (now id : ℕ) (m : Manager) (row : Job)
    → get_job id m.db ≡ ok row
    → terminal row.status ≡ false
    → retry now id m ≡ err (not_finished id row.status)
unfolding retry
retry_refused now id m row found live = rw (found, live)

after_mark_db : (j : Job) (db : Database) (m : Manager) → (after_mark j (ok db) m).db ≡ db
after_mark_db j db m = elim (Bool-cases m.stopping) [ inl s ↦ rw s | inr s ↦ rw s ]

pub start_job-get_job :
    (now : ℕ) (j : Job) (m : Manager) (row : Job)
    → transition j.status status_running ≡ none
    → get_job j.id m.db ≡ ok row
    → get_job j.id (start_job now j m).db
      ≡ ok (with_status (seconds now) status_running blank none row)
start_job-get_job now j m row legal found =
    let u =
      set_job_status-Updates (seconds now) j.id status_running blank none m.db row refl found in
    let marked = ok (with_status (seconds now) status_running blank none row) in
    rw (legal, u.1)
      (ap (get_job j.id) (after_mark_db j u.0 m)
        ∙ u.2 j.id
        ∙ ap (λ b. if b then marked else get_job j.id m.db) (==_refl j.id))

queued_runs : transition status_queued status_running ≡ none
unfolding transition
queued_runs = refl

-- The scheduler writes the row from its own copy of the list: a job whose row was cancelled after the
-- list was read, so that the copy still says queued, gets a running row all the same, which is a move
-- that the state machine refuses.
pub start_job_overwrites_cancelled :
    (now : ℕ) (j : Job) (m : Manager) (row : Job)
    → j.status ≡ status_queued
    → get_job j.id m.db ≡ ok row
    → row.status ≡ status_cancelled
    → (after : Job) × (get_job j.id (start_job now j m).db ≡ ok after)
      × (after.status ≡ status_running)
      × (transition row.status after.status ≢ none)
start_job_overwrites_cancelled now j m row copy found gone = (
  with_status (seconds now) status_running blank none row,
  start_job-get_job now j m row (ap (λ s. transition s status_running) copy ∙ queued_runs) found,
  refl,
  terminal_refuses row.status status_running ((terminal_iff row.status).1 (inr (inr gone))),
)

start_job_refused :
    (now : ℕ) (j : Job) (m : Manager) (e : Error)
    → transition j.status status_running ≡ some e
    → start_job now j m ≡ m
start_job_refused now j m e refused = rw refused

-- From a copy that agrees with the row the scheduler either leaves the row alone or makes a legal move
-- to running.
pub start_job_legal :
    (now : ℕ) (j : Job) (m : Manager) (row : Job)
    → j.status ≡ row.status
    → get_job j.id m.db ≡ ok row
    → (after : Job) × (get_job j.id (start_job now j m).db ≡ ok after)
      × ((after ≡ row)
          ⊎ ((after.status ≡ status_running) × (transition row.status after.status ≡ none)))
start_job_legal now j m row copy found = elim (Option-cases (transition j.status status_running)) [
  | inl legal ↦ (
    with_status (seconds now) status_running blank none row,
    start_job-get_job now j m row legal found,
    inr (refl, sym (ap (λ s. transition s status_running) copy) ∙ legal),
  )
  | inr (e, refused) ↦
      (row, ap (λ n. get_job j.id n.db) (start_job_refused now j m e refused) ∙ found, inl refl)
]
