-- ===== src/Examples/Pool.antt =====
-- Job 7 through its manager (internal/jobs/manager.go).
use sftp_relay.Base.{
  false, ℕ, ◌≤◌, none, List, [], ◌∷◌, length, take, atoi, trim_space, trim_left, ◌≡◌, ◌≢◌, refl, ok,
  ◌==◌, if◌then◌else◌,
}
use sftp_relay.Base.Int.{pos}
use sftp_relay.Db.Rows.{Job, cancelled_by_user}
use sftp_relay.Db.Logs.{has_id}
use sftp_relay.Db.Settings.{settings}
use sftp_relay.Jobs.Manager.Starting.{IsNext, Started, start_next-starts_oldest}
use sftp_relay.Db.Queue.{joined, get_job, with_status}
use sftp_relay.Jobs.State.{status_running, status_done, status_failed, status_cancelled, transition}
use sftp_relay.Jobs.Tracker.{new_tracker}
use sftp_relay.Jobs.Manager.{Manager, seconds, setting_int}
use sftp_relay.Jobs.Manager.Run.{exited, is_zero, conclude}
use sftp_relay.Jobs.Manager.Schedule.{start_job, concurrency, free, plan, start_next}
use sftp_relay.Jobs.Manager.Commands.{cancel_row}
use sftp_relay.Jobs.Manager.Outcomes.{concluded, conclude-concluded, exited_overwrites_cancelled}
use sftp_relay.Jobs.Manager.Effects.{cancel_row-get_job, start_job_overwrites_cancelled}
use sftp_relay.Jobs.Manager.Steps.{
  Act, plans, starts, begins, ends, cancels, cancels_context, retries, run,
}
use sftp_relay.Jobs.Manager.Capacity.{run-concurrency}
use sftp_relay.Examples.{seedbox, film_read, database_7, worker_7, busy, idle}
use sftp_relay.Examples.Db.{found_7}

abbrev acts : List (ℕ × Act)
acts =
    (1000000000, plans)
    ∷ (1000000000, starts)
    ∷ (1500000000, begins 6)
    ∷ (2000000000, plans)
    ∷ (2000000000, starts)
    ∷ (3000000000, cancels 7)
    ∷ (3000000000, cancels_context 7)
    ∷ (4000000000, ends 6 (exited (pos 0)))
    ∷ (5000000000, retries 7)
    ∷ (6000000000, plans)
    ∷ (6000000000, starts)
    ∷ []

run-concurrency_example : length (run acts (idle "queued")).running ≤ concurrency (idle "queued")
run-concurrency_example = run-concurrency acts (idle "queued") refl refl

conclude-concluded_example :
    get_job 7
      (conclude 9000000000 worker_7 seedbox
        (new_tracker (pos 4000))
        (exited (pos 0))
        (busy "running")).db
    ≡ ok (
        concluded 9000000000 false
          (new_tracker (pos 4000))
          (exited (pos 0))
          (film_read 7 "running"))
conclude-concluded_example =
    conclude-concluded 9000000000 worker_7 seedbox (new_tracker (pos 4000)) (busy "running")
      (film_read 7 "running") (exited (pos 0)) refl (found_7 "running")

exited_overwrites_cancelled_example :
    (after : Job) × (get_job 7
        (conclude 9000000000 worker_7 seedbox
          (new_tracker (pos 4000))
          (exited (pos 143))
          (busy "cancelled")).db
      ≡ ok after)
    × (after.status ≡ (if is_zero (pos 143) then status_done else status_failed))
    × (transition "cancelled" after.status ≢ none)
exited_overwrites_cancelled_example =
    exited_overwrites_cancelled 9000000000 worker_7 seedbox (new_tracker (pos 4000))
      (busy "cancelled") (film_read 7 "cancelled") (pos 143) refl (found_7 "cancelled") refl

running_can_be_cancelled : transition "running" "cancelled" ≡ none
unfolding transition
running_can_be_cancelled = refl

cancel_row-get_job_example :
    (m' : Manager) × (cancel_row 9000000000 7 (busy "running") ≡ ok m')
    × ((i : ℕ)
        → get_job i m'.db ≡ (
            if i == 7
            then ok (
                with_status
                  (seconds 9000000000)
                  status_cancelled
                  cancelled_by_user
                  none
                  (film_read 7 "running"))
            else get_job i (database_7 "running")))
    × (m'.kills ≡ (if has_id 7 (7 ∷ []) then 7 ∷ [] else []))
cancel_row-get_job_example =
    cancel_row-get_job 9000000000 7 (busy "running") (film_read 7 "running") (found_7 "running")
      running_can_be_cancelled

start_job_overwrites_cancelled_example :
    (after : Job) × (get_job 7 (start_job 9000000000 (film_read 7 "queued") (idle "cancelled")).db
      ≡ ok after)
    × (after.status ≡ status_running)
    × (transition "cancelled" after.status ≢ none)
start_job_overwrites_cancelled_example =
    start_job_overwrites_cancelled 9000000000 (film_read 7 "queued") (idle "cancelled")
      (film_read 7 "cancelled") refl (found_7 "cancelled") refl

queue_of_idle : IsNext (film_read 6 "queued") [] (idle "running")
unfolding get_job joined
queue_of_idle = (refl, refl)

one_slot : free (idle "running") ≡ 1
unfolding settings setting_int atoi trim_space trim_left
one_slot = refl

start_next-starts_oldest_example :
    Started 1000000000
      (film_read 6 "queued")
      (take 0 [])
      []
      (start_next 1000000000 (plan (idle "running")))
start_next-starts_oldest_example =
    start_next-starts_oldest 1000000000 (idle "running") (film_read 6 "queued") [] 0 refl one_slot
      queue_of_idle
