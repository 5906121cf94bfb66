-- ===== src/Jobs/Manager/Running.antt =====
-- The goroutine of a job starts no job and leaves the settings alone (internal/jobs/manager.go).
use sftp_relay.Base.{
  ℕ, String, Text, Option, none, some, Bool-cases, refl, arith, inl, inr, Result, ok, err,
}
use sftp_relay.Base.Int.{ℤ}
use sftp_relay.Db.Rows.{
  message_of, interrupted_by_restart, blank, lftp_exited, Server, Job, Message,
}
use sftp_relay.Db.Queue.{set_job_total, get_job}
use sftp_relay.Nas.Progress.{Progress}
use sftp_relay.Jobs.Tracker.{Tracker, Flush, observe, observe_size, complete, stale}
use sftp_relay.Jobs.State.{status_failed, status_done, status_interrupted}
use sftp_relay.Db.Servers.{get_server}
use sftp_relay.Events.{type_progress}
use sftp_relay.Jobs.Manager.{
  Manager, Worker, transferring, finish, publish_job, cleanup, log, leave,
}
use sftp_relay.Jobs.Manager.Run.{
  Outcome, run_begin, run_sized, on_line, poll, run_end, broke, exited, set_worker, is_zero,
  is_cancelled_row, conclude, flush, track, run_with,
}
use sftp_relay.Jobs.Manager.Quiet.{
  Quiet, Quiet-refl, Quiet-trans, set_job_total-Settled, finish-Quiet, leave-Quiet,
  publish_job-Quiet, cleanup-Quiet, log-Quiet, db_or-settings, flush-Quiet, Quiet-if,
}

leave-finish-Quiet :
    (now : ℕ) (job : Job) (status : String) (msg : Message) (code : Option ℤ) (m : Manager)
    → Quiet m (leave job.id (finish now job status msg code m))
leave-finish-Quiet now job status msg code m =
    Quiet-trans m (finish now job status msg code m)
      (leave job.id (finish now job status msg code m)) (finish-Quiet now job status msg code m)
      (leave-Quiet job.id (finish now job status msg code m))

run_with-Quiet :
    (now : ℕ) (w : Worker) (r : Result Server) (m : Manager) → Quiet m (run_with now w r m)
run_with-Quiet now w (err e) m = leave-finish-Quiet now w.job status_failed (message_of e) none m
run_with-Quiet now w (ok server) m = elim (Bool-cases (is_zero w.job.total_bytes)) [
  | inl z ↦
      rw z (record { same_settings = refl; no_more_running = omega arith; same_waiting = refl })
  | inr z ↦
      rw z (record { same_settings = refl; no_more_running = omega arith; same_waiting = refl })
]

pub run_sized-Quiet :
    (now : ℕ) (w : Worker) (server : Server) (r : Result ℤ) (m : Manager)
    → Quiet m (run_sized now w server r m)
unfolding run_sized
run_sized-Quiet now w server (err e) m =
    leave-finish-Quiet now w.job status_failed (message_of e) none m
run_sized-Quiet now w server (ok total) m = record {
  same_settings =
      db_or-settings m.db (set_job_total w.job.id total m.db)
        (set_job_total-Settled w.job.id total m.db);
  no_more_running = omega arith;
  same_waiting = refl;
}

track-Quiet :
    (now : ℕ) (w : Worker) (server : Server) (r : Tracker × Option Flush) (m : Manager)
    → Quiet m (track now w server r m)
track-Quiet now w server (t, none) m = record {
  same_settings = refl;
  no_more_running = omega arith;
  same_waiting = refl;
}
track-Quiet now w server (t, some f) m =
    let m1 = set_worker (record w { phase = transferring server t }) m in
    Quiet-trans m m1 (flush now w.job.id (some f) m1)
      (record { same_settings = refl; no_more_running = omega arith; same_waiting = refl })
      (flush-Quiet now w.job.id (some f) m1)

pub on_line-Quiet :
    (now : ℕ) (w : Worker) (server : Server) (t : Tracker) (text : Text) (p : Option Progress)
    (m : Manager)
    → Quiet m (on_line now w server t text p m)
unfolding on_line
on_line-Quiet now w server t text none m = log-Quiet now w.job.id text m
on_line-Quiet now w server t text (some p) m =
    let m1 = track now w server (observe p now now t) m in
    let q = track-Quiet now w server (observe p now now t) m in
    Quiet-if p.final m (log now w.job.id text m1) m1
      (Quiet-trans m m1 (log now w.job.id text m1) q (log-Quiet now w.job.id text m1)) q

pub poll-Quiet :
    (now : ℕ) (w : Worker) (server : Server) (t : Tracker) (r : Result ℤ) (m : Manager)
    → Quiet m (poll now w server t r m)
unfolding poll
poll-Quiet now w server t (err e) m = Quiet-refl m
poll-Quiet now w server t (ok n) m = elim (Bool-cases (stale now t)) [
  | inl s ↦ rw s (track-Quiet now w server (observe_size n now t) m)
  | inr s ↦ rw s (Quiet-refl m)
]

conclude-Quiet :
    (now : ℕ) (w : Worker) (server : Server) (t : Tracker) (o : Outcome) (m : Manager)
    → Quiet m (conclude now w server t o m)
unfolding conclude
conclude-Quiet now w server t (broke e) m =
    elim (Bool-cases (is_cancelled_row (get_job w.job.id m.db))) [
      | inl gone ↦ rw gone (cleanup-Quiet w.job.id m)
      | inr there ↦ elim (Bool-cases w.cancelled) [
        | inl c ↦
            let m1 = finish now w.job status_interrupted interrupted_by_restart none m in
            rw (there, c)
              (Quiet-trans m m1 (cleanup w.job.id m1)
                (finish-Quiet now w.job status_interrupted interrupted_by_restart none m)
                (cleanup-Quiet w.job.id m1))
        | inr c ↦ rw (there, c) (finish-Quiet now w.job status_failed (message_of e) none m)
      ]
    ]
conclude-Quiet now w server t (exited code) m = elim (Bool-cases (is_zero code)) [
  | inl z ↦
      let m1 = flush now w.job.id (complete now t).1 m in
      rw z (
        Quiet-trans m m1 (finish now w.job status_done blank (some code) m1)
          (flush-Quiet now w.job.id (complete now t).1 m)
          (finish-Quiet now w.job status_done blank (some code) m1))
  | inr n ↦ rw n (finish-Quiet now w.job status_failed (lftp_exited code) (some code) m)
]

pub run_end-Quiet :
    (now : ℕ) (w : Worker) (server : Server) (t : Tracker) (o : Outcome) (m : Manager)
    → Quiet m (run_end now w server t o m)
unfolding run_end
run_end-Quiet now w server t o m =
    Quiet-trans m (conclude now w server t o m) (leave w.job.id (conclude now w server t o m))
      (conclude-Quiet now w server t o m) (leave-Quiet w.job.id (conclude now w server t o m))

pub run_begin-Quiet : (now : ℕ) (w : Worker) (m : Manager) → Quiet m (run_begin now w m)
unfolding run_begin
run_begin-Quiet now w m =
    let m1 = publish_job now type_progress w.job.id m in
    Quiet-trans m m1 (run_with now w (get_server w.job.server_id m1.db) m1)
      (publish_job-Quiet now type_progress w.job.id m)
      (run_with-Quiet now w (get_server w.job.server_id m1.db) m1)
