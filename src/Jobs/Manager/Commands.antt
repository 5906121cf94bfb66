-- ===== src/Jobs/Manager/Commands.antt =====
-- `Cancel`, `Retry`, `Announce` and `Stop` of internal/jobs/manager.go.
use sftp_relay.Base.{
  ℕ, Bool, true, false, not, ◌||◌, Option, none, some, map, ◌==◌, if◌then◌else◌, Error,
  not_finished, Result, ok, err, ◌>>=◌,
}
use sftp_relay.Db.Rows.{Job, cancelled_by_user}
use sftp_relay.Db.Logs.{has_id}
use sftp_relay.Db.Queue.{get_job, set_job_status, create_job}
use sftp_relay.Events.{type_created, type_done}
use sftp_relay.Jobs.State.{status_queued, status_cancelled, transition, terminal}
use sftp_relay.Jobs.Manager.{Manager, Worker, publish_job, cleanup, seconds}

-- A nil error goes on.
abbrev pub check : Option Error → Result (Unit {0})
check none = ok tt
check (some e) = err e

abbrev pub cancel_context : ℕ → Worker → Worker
cancel_context id w = if w.job.id == id then record w { cancelled = true } else w

-- The two writes of `Cancel` with the signals between them. The first part, up to the signal that
-- stops lftp, ...
abbrev pub signal : ℕ → Manager → Manager
signal id m = if has_id id m.running then cleanup id m else m

-- ... and the second, which cancels the context of the goroutine.
abbrev pub stop_worker : ℕ → Manager → Manager
stop_worker id m =
    if has_id id m.running then record m { workers = map (cancel_context id) m.workers } else m

unfoldable pub cancel_row : ℕ → ℕ → Manager → Result Manager
unfolding cleanup
cancel_row now id m = do
  job ← get_job id m.db
  u ← check (transition job.status status_cancelled)
  db ← set_job_status (seconds now) id status_cancelled cancelled_by_user none m.db
  ok (signal id (record m { db = db }))

unfoldable pub cancel_context_of : ℕ → ℕ → Manager → Manager
unfolding publish_job
cancel_context_of now id m = publish_job now type_done id (stop_worker id m)

-- `Cancel` with nothing between its two parts.
unfoldable pub cancel : ℕ → ℕ → Manager → Result Manager
unfolding cancel_row cancel_context_of
cancel now id m = do m' ← cancel_row now id m; ok (cancel_context_of now id m')

-- The row that a retry inserts.
abbrev pub clone : Job → Job
clone job = record job { status = status_queued }

abbrev pub fail_unless : Bool → Error → Result (Unit {0})
fail_unless true e = ok tt
fail_unless false e = err e

unfoldable pub retry : ℕ → ℕ → Manager → Result (ℕ × Manager)
unfolding publish_job
retry now id m = do
  job ← get_job id m.db
  u ← fail_unless (terminal job.status) (not_finished id job.status)
  created ← create_job (seconds now) (clone job) m.db
  ok (created.0, publish_job now type_created created.0 (record m { db = created.1 }))

unfoldable pub announce : ℕ → ℕ → Manager → Manager
unfolding publish_job
announce now id m = publish_job now type_created id m

abbrev pub cancel_any : Worker → Worker
cancel_any w = record w { cancelled = true }

-- `Stop`, up to its wait for the workers.
unfoldable pub stop : Manager → Manager
stop m =
    if m.stopping || not m.started
    then m
    else record m { stopping = true; workers = map cancel_any m.workers }
