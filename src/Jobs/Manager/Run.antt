-- ===== src/Jobs/Manager/Run.antt =====
-- `run`, `pollDest` and the log callback of internal/jobs/manager.go, cut at their waits. The answers of
-- the remote server and of the NAS are arguments.
use sftp_relay.Base.{
  ℕ, Text, Bool, false, Option, none, some, map, str_eq, ◌==◌, if◌then◌else◌, Error, Result, ok,
  err,
}
use sftp_relay.Base.Int.{ℤ, pos, negsuc}
use sftp_relay.Db.Rows.{Server, Job, message_of, lftp_exited, interrupted_by_restart, blank}
use sftp_relay.Db.Servers.{get_server}
use sftp_relay.Db.Queue.{get_job, set_job_total, set_job_progress}
use sftp_relay.Events.{type_progress}
use sftp_relay.Nas.Progress.{Progress}
use sftp_relay.Jobs.State.{status_done, status_failed, status_cancelled, status_interrupted}
use sftp_relay.Jobs.Tracker.{Tracker, Flush, new_tracker, observe, observe_size, complete, stale}
use sftp_relay.Jobs.Manager.{
  sizing, transferring, Worker, Manager, publish_job, cleanup, log, finish, leave,
}

abbrev pub replace_worker : ℕ → Worker → Worker → Worker
replace_worker id new old = if old.job.id == id then new else old

abbrev pub set_worker : Worker → Manager → Manager
set_worker w m = record m { workers = map (replace_worker w.job.id w) m.workers }

abbrev pub begin_transfer : Worker → Server → Manager → Manager
begin_transfer w server m =
    set_worker (record w { phase = transferring server (new_tracker w.job.total_bytes) }) m

abbrev pub is_zero : ℤ → Bool
is_zero (pos n) = n == 0
is_zero (negsuc n) = false

-- Up to the call of `remoteSize`, or to the transfer where the size is known.
abbrev pub run_with : ℕ → Worker → Result Server → Manager → Manager
run_with now w (err e) m = leave w.job.id (finish now w.job status_failed (message_of e) none m)
run_with now w (ok server) m =
    if is_zero w.job.total_bytes
    then set_worker (record w { phase = sizing server }) m
    else begin_transfer w server m

unfoldable pub run_begin : ℕ → Worker → Manager → Manager
run_begin now w m =
    let m1 = publish_job now type_progress w.job.id m in
    run_with now w (get_server w.job.server_id m1.db) m1

-- An error of the write is only logged.
abbrev pub db_or {ℓ} : {A : Type ℓ} → A → Result A → A
db_or old (ok new) = new
db_or old (err e) = old

unfoldable pub run_sized : ℕ → Worker → Server → Result ℤ → Manager → Manager
run_sized now w server (err e) m =
    leave w.job.id (finish now w.job status_failed (message_of e) none m)
run_sized now w server (ok total) m =
    let m1 = record m { db = db_or m.db (set_job_total w.job.id total m.db) } in
    begin_transfer (record w { job = record w.job { total_bytes = total } }) server m1

-- The flush function of the tracker.
abbrev pub flush : ℕ → ℕ → Option Flush → Manager → Manager
flush now id none m = m
flush now id (some f) m =
    publish_job now type_progress id
      (record m { db = db_or m.db (set_job_progress id f.bytes f.speed f.eta m.db) })

abbrev pub track : ℕ → Worker → Server → Tracker × Option Flush → Manager → Manager
track now w server (t, f) m =
    flush now w.job.id f (set_worker (record w { phase = transferring server t }) m)

-- The callback that gets each line of output; `parsed` is what `ParseProgress` makes of the line.
unfoldable pub on_line : ℕ → Worker → Server → Tracker → Text → Option Progress → Manager → Manager
on_line now w server t text none m = log now w.job.id text m
on_line now w server t text (some p) m =
    let m1 = track now w server (observe p now now t) m in
    if p.final then log now w.job.id text m1 else m1

-- One tick of `pollDest`; `size` is the answer of the NAS, if it is asked.
unfoldable pub poll : ℕ → Worker → Server → Tracker → Result ℤ → Manager → Manager
poll now w server t (err e) m = m
poll now w server t (ok n) m =
    if stale now t then track now w server (observe_size n now t) m else m

-- What `transfer` returns.
pub data Outcome : Type 0 where
  broke : Error → Outcome
  exited : ℤ → Outcome

abbrev pub is_cancelled_row : Result Job → Bool
is_cancelled_row (err e) = false
is_cancelled_row (ok j) = str_eq j.status status_cancelled

-- The `switch` at the end of `run`.
unfoldable pub conclude : ℕ → Worker → Server → Tracker → Outcome → Manager → Manager
conclude now w server t (broke e) m =
    if is_cancelled_row (get_job w.job.id m.db)
    then cleanup w.job.id m
    else if w.cancelled
    then cleanup w.job.id (finish now w.job status_interrupted interrupted_by_restart none m)
    else finish now w.job status_failed (message_of e) none m
conclude now w server t (exited code) m =
    if is_zero code
    then (let (t', f) = complete now t in
        finish now w.job status_done blank (some code) (flush now w.job.id f m))
    else finish now w.job status_failed (lftp_exited code) (some code) m

unfoldable pub run_end : ℕ → Worker → Server → Tracker → Outcome → Manager → Manager
unfolding conclude leave
run_end now w server t o m = leave w.job.id (conclude now w server t o m)
