-- ===== src/Jobs/Manager/Quiet.antt =====
-- The parts of internal/jobs/manager.go that start no job and leave the settings alone.
use sftp_relay.Base.{
  if◌then◌else◌, ℕ, ◌≤◌, String, Text, Option, none, some, List, length, length-keep-le, Bool, true,
  false, ◌≡◌, refl, arith, Result, ok, err, Error, not, ◌==◌, ◌∙◌, ◌∙◌,
}
use sftp_relay.Base.Int.{ℤ}
use sftp_relay.Db.Rows.{Job, Message, Database}
use sftp_relay.Db.Queue.{set_job_status, set_job_total, set_job_progress}
use sftp_relay.Db.Logs.{append_job_log}
use sftp_relay.Jobs.Tracker.{Flush}
use sftp_relay.Jobs.State.{transition}
use sftp_relay.Jobs.Manager.{
  Manager, seconds, finish, after_finish, after_log, if_legal, log_keep, publish_job, cleanup, log,
  leave,
}
use sftp_relay.Jobs.Manager.Run.{flush, db_or}

-- A part of the program that leaves the settings alone, and starts nothing.
pub record Quiet (a b : Manager) : Type 0 where
  pub same_settings : b.db.settings ≡ a.db.settings
  pub no_more_running : length b.running ≤ length a.running
  pub same_waiting : b.waiting ≡ a.waiting

pub Quiet-refl : (a : Manager) → Quiet a a
Quiet-refl a = record { same_settings = refl; no_more_running = omega arith; same_waiting = refl }

pub Quiet-trans : (a b c : Manager) → Quiet a b → Quiet b c → Quiet a c
Quiet-trans a b c q r = record {
  same_settings = r.same_settings ∙ q.same_settings;
  no_more_running = omega (arith, q.no_more_running, r.no_more_running);
  same_waiting = r.same_waiting ∙ q.same_waiting;
}

-- What a write returns has the settings `s`.
abbrev pub Settled : List (String × Text) → Result Database → Type 0
Settled s (ok db) = db.settings ≡ s
Settled s (err e) = Unit

pub set_job_status-Settled :
    (now id : ℕ) (status : String) (msg : Message) (code : Option ℤ) (db : Database)
    → Settled db.settings (set_job_status now id status msg code db)
unfolding set_job_status
set_job_status-Settled now id status msg code db = ground arith

pub set_job_total-Settled :
    (id : ℕ) (total : ℤ) (db : Database) → Settled db.settings (set_job_total id total db)
unfolding set_job_total
set_job_total-Settled id total db = ground arith

pub set_job_progress-Settled :
    (id : ℕ) (b s e : ℤ) (db : Database) → Settled db.settings (set_job_progress id b s e db)
unfolding set_job_progress
set_job_progress-Settled id b s e db = ground arith

pub append_job_log-Settled :
    (id : ℕ) (text : Text) (n : ℕ) (db : Database)
    → Settled db.settings (append_job_log id text n db)
unfolding append_job_log
append_job_log-Settled id text n db = ground arith

pub after_finish-Quiet :
    (now id : ℕ) (status : String) (r : Result Database) (m : Manager)
    → Settled m.db.settings r
    → Quiet m (after_finish now id status r m)
unfolding publish_job cleanup
after_finish-Quiet now id status (ok db) m h = record {
  same_settings = h;
  no_more_running = omega arith;
  same_waiting = refl;
}
after_finish-Quiet now id status (err e) m h = Quiet-refl m

pub if_legal-Quiet :
    (o : Option Error) (m a b : Manager) → Quiet m a → Quiet m b → Quiet m (if_legal o a b)
if_legal-Quiet none m a b qa qb = qa
if_legal-Quiet (some e) m a b qa qb = qb

pub finish-Quiet :
    (now : ℕ) (job : Job) (status : String) (msg : Message) (code : Option ℤ) (m : Manager)
    → Quiet m (finish now job status msg code m)
unfolding finish
finish-Quiet now job status msg code m =
    if_legal-Quiet (transition job.status status) m
      (after_finish now job.id status (set_job_status (seconds now) job.id status msg code m.db) m)
      m
      (after_finish-Quiet now job.id status
        (set_job_status (seconds now) job.id status msg code m.db) m
        (set_job_status-Settled (seconds now) job.id status msg code m.db))
      (Quiet-refl m)

pub leave-Quiet : (id : ℕ) (m : Manager) → Quiet m (leave id m)
unfolding leave
leave-Quiet id m = record {
  same_settings = refl;
  no_more_running = length-keep-le (λ k. not (k == id)) m.running;
  same_waiting = refl;
}

pub publish_job-Quiet :
    (now : ℕ) (type : String) (id : ℕ) (m : Manager) → Quiet m (publish_job now type id m)
unfolding publish_job
publish_job-Quiet now type id m = record {
  same_settings = refl;
  no_more_running = omega arith;
  same_waiting = refl;
}

pub cleanup-Quiet : (id : ℕ) (m : Manager) → Quiet m (cleanup id m)
unfolding cleanup
cleanup-Quiet id m = record {
  same_settings = refl;
  no_more_running = omega arith;
  same_waiting = refl;
}

pub after_log-Quiet :
    (now id : ℕ) (text : Text) (r : Result Database) (m : Manager)
    → Settled m.db.settings r
    → Quiet m (after_log now id text r m)
after_log-Quiet now id text (ok db) m h = record {
  same_settings = h;
  no_more_running = omega arith;
  same_waiting = refl;
}
after_log-Quiet now id text (err e) m h = Quiet-refl m

pub log-Quiet : (now id : ℕ) (text : Text) (m : Manager) → Quiet m (log now id text m)
unfolding log
log-Quiet now id text m =
    after_log-Quiet now id text (append_job_log id text log_keep m.db) m
      (append_job_log-Settled id text log_keep m.db)

pub db_or-settings :
    (db : Database) (r : Result Database)
    → Settled db.settings r
    → (db_or db r).settings ≡ db.settings
db_or-settings db (ok db') h = h
db_or-settings db (err e) h = refl

pub flush-Quiet : (now id : ℕ) (f : Option Flush) (m : Manager) → Quiet m (flush now id f m)
unfolding publish_job
flush-Quiet now id none m = Quiet-refl m
flush-Quiet now id (some f) m = record {
  same_settings =
      db_or-settings m.db (set_job_progress id f.bytes f.speed f.eta m.db)
        (set_job_progress-Settled id f.bytes f.speed f.eta m.db);
  no_more_running = omega arith;
  same_waiting = refl;
}

pub Quiet-if : (b : Bool) (m x y : Manager) → Quiet m x → Quiet m y → Quiet m (if b then x else y)
Quiet-if true m x y qx qy = qx
Quiet-if false m x y qx qy = qy
