-- ===== src/Jobs/Manager.antt =====
-- internal/jobs/manager.go: the worker pool. A goroutine of the program is a `Worker`; the calls and
-- the goroutines' parts between two waits are functions on the state, and `Manager/Steps.antt` lets
-- them interleave. The clock is an argument, in nanoseconds; the database stamps whole seconds.
pub mod Run
pub mod Outcomes
pub mod Steps
mod Quiet
mod Running
mod Calls
pub mod Capacity
pub mod Effects
pub mod Starting
pub mod Transfers
pub mod Schedule
pub mod Commands
use sftp_relay.Base.{
  ℕ, ◌/◌, String, Text, Bool, true, false, not, Option, none, some, List, [], ◌∷◌, lookup, str_eq,
  ◌==◌, if◌then◌else◌, keep, Error, Result, ok, err, trim_space, atoi,
}
use sftp_relay.Base.Int.{ℤ, pos, negsuc}
use sftp_relay.Db.Rows.{Server, Job, Message, Database, message_of}
use sftp_relay.Db.Queue.{get_job, set_job_status}
use sftp_relay.Db.Logs.{append_job_log}
use sftp_relay.Events.{Hub, Event, publish, type_progress, type_done, type_failed, type_log}
use sftp_relay.Jobs.State.{status_failed, status_interrupted, transition}
use sftp_relay.Jobs.View.{View, view_of}
use sftp_relay.Jobs.Tracker.{Tracker}

pub data Payload : Type 0 where
  view : View → Payload
  line : Text → Payload

-- Where the goroutine of a job stands: just started, waiting for the size of the remote path, waiting
-- for the transfer.
pub data Phase : Type 0 where
  starting : Phase
  sizing : Server → Phase
  transferring : Server → Tracker → Phase

-- `job` is the goroutine's own copy of the row, `cancelled` says that its context is.
pub record Worker : Type 0 where
  pub job : Job
  pub cancelled : Bool
  pub phase : Phase

-- `running` holds the keys of the map of cancel functions, `waiting` what is left of the list that the
-- scheduler is going through, and `kills` the jobs that `killRemote` was called for, last first.
pub record Manager : Type 0 where
  pub db : Database
  pub hub : Hub Payload
  pub running : List ℕ
  pub workers : List Worker
  pub waiting : List Job
  pub stopping : Bool
  pub started : Bool
  pub kills : List ℕ

abbrev pub log_keep : ℕ
log_keep = 200

abbrev pub seconds : ℕ → ℕ
seconds now = now / 1000000000

abbrev pub or_fallback : Option ℤ → ℕ → ℕ
or_fallback none fallback = fallback
or_fallback (some (pos v)) fallback = v
or_fallback (some (negsuc v)) fallback = fallback

abbrev pub or_empty : Option Text → Text
or_empty none = []
or_empty (some s) = s

unfoldable pub setting_int : List (String × Text) → String → ℕ → ℕ
setting_int s key fallback = or_fallback (atoi (trim_space (or_empty (lookup key s)))) fallback

-- `publish`: the row is read again; an error is only logged.
abbrev pub announce_row : ℕ → String → ℕ → Result Job → Hub Payload → Hub Payload
announce_row now type id (err e) h = h
announce_row now type id (ok j) h =
    publish (record { type = type; job_id = id; payload = view (view_of j) }) now h

unfoldable pub publish_job : ℕ → String → ℕ → Manager → Manager
publish_job now type id m = record m { hub = announce_row now type id (get_job id m.db) m.hub }

unfoldable pub cleanup : ℕ → Manager → Manager
cleanup id m = record m { kills = id ∷ m.kills }

abbrev pub after_log : ℕ → ℕ → Text → Result Database → Manager → Manager
after_log now id text (err e) m = m
after_log now id text (ok db) m = record m {
  db = db;
  hub = publish (record { type = type_log; job_id = id; payload = line text }) now m.hub;
}

unfoldable pub log : ℕ → ℕ → Text → Manager → Manager
log now id text m = after_log now id text (append_job_log id text log_keep m.db) m

abbrev pub finish_event : String → String
finish_event status =
    if str_eq status status_interrupted
    then type_progress
    else if str_eq status status_failed
    then type_failed
    else type_done

abbrev pub after_finish : ℕ → ℕ → String → Result Database → Manager → Manager
after_finish now id status (err e) m = m
after_finish now id status (ok db) m =
    cleanup id (publish_job now (finish_event status) id (record m { db = db }))

abbrev pub if_legal : Option Error → Manager → Manager → Manager
if_legal none then_ else_ = then_
if_legal (some e) then_ else_ = else_

-- The move is checked on the goroutine's copy of the row, and written to the row.
unfoldable pub finish : ℕ → Job → String → Message → Option ℤ → Manager → Manager
unfolding publish_job cleanup
finish now job status msg code m =
    if_legal (transition job.status status)
      (after_finish now job.id status (set_job_status (seconds now) job.id status msg code m.db) m)
      m

-- The goroutines of the other jobs.
abbrev pub is_worker : ℕ → Worker → Bool
is_worker id w = w.job.id == id

abbrev pub without_key : ℕ → List ℕ → List ℕ
without_key id ks = keep (λ k. not (k == id)) ks

-- The end of a goroutine, with its deferred calls.
unfoldable pub leave : ℕ → Manager → Manager
leave id m = record m {
  workers = keep (λ w. not (is_worker id w)) m.workers;
  running = without_key id m.running;
}
