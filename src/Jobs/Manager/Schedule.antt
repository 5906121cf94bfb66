-- ===== src/Jobs/Manager/Schedule.antt =====
-- `schedule`, `purge` and `Start` of internal/jobs/manager.go.
use sftp_relay.Base.{
  ℕ, ◌-◌, true, false, ◌||◌, none, List, [], ◌∷◌, length, ◌==◌, if◌then◌else◌, Result, ok, err,
}
use sftp_relay.Db.Rows.{Job, Database, blank}
use sftp_relay.Db.Queue.{runnable_jobs, set_job_status, purge_jobs, interrupt_running_jobs}
use sftp_relay.Db.Settings.{settings}
use sftp_relay.Jobs.State.{status_running, transition}
use sftp_relay.Jobs.Manager.{Manager, starting, setting_int, seconds, if_legal, without_key}

abbrev pub concurrency : Manager → ℕ
concurrency m = setting_int (settings m.db) "concurrency" 2

-- `free` is what the setting leaves; a negative number and zero both stop the tick.
abbrev pub free : Manager → ℕ
free m = concurrency m - length m.running

-- The part of `schedule` before its loop.
unfoldable pub plan : Manager → Manager
plan m = if free m == 0 || m.stopping then m else record m { waiting = runnable_jobs (free m) m.db }

abbrev pub register : Job → Manager → Manager
register j m = record m {
  running = j.id ∷ without_key j.id m.running;
  workers = record { job = j; cancelled = false; phase = starting } ∷ m.workers;
}

abbrev pub after_mark : Job → Result Database → Manager → Manager
after_mark j (err e) m = m
after_mark j (ok db) m =
    if m.stopping
    then record m { db = db; waiting = [] }
    else register (record j { status = status_running }) (record m { db = db })

-- One round of the loop of `schedule`.
abbrev pub start_job : ℕ → Job → Manager → Manager
start_job now j m =
    if_legal (transition j.status status_running)
      (after_mark j (set_job_status (seconds now) j.id status_running blank none m.db) m) m

abbrev pub start_first : ℕ → List Job → Manager → Manager
start_first now [] m = m
start_first now (j ∷ js) m = start_job now j (record m { waiting = js })

unfoldable pub start_next : ℕ → Manager → Manager
start_next now m = start_first now m.waiting m

abbrev pub retention : Manager → ℕ
retention m = setting_int (settings m.db) "history_retention_days" 90

unfoldable pub purge : ℕ → Manager → Manager
purge now m =
    if retention m == 0
    then m
    else record m { db = (purge_jobs (seconds now) (retention m) m.db).0 }

-- `Start`, up to the scheduler. The sweep of stale workspaces is the NAS client's.
unfoldable pub start : Manager → Manager
start m = record m { db = (interrupt_running_jobs m.db).0; started = true }
