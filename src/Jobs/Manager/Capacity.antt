-- ===== src/Jobs/Manager/Capacity.antt =====
-- The pool never runs more jobs than the setting allows (internal/jobs/manager.go).
use mathlib.Core.List.{reverse}
use sftp_relay.Base.{
  ℕ, suc, ◌+◌, ◌≤◌, Option, none, some, List, [], ◌∷◌, length, length-keep-le, length-take-le,
  Bool-cases, ◌≡◌, refl, ap, arith, inl, inr, Result, ok, err, Error, keep, not, ◌==◌, ◌∙◌, ◌||◌,
}
use sftp_relay.Db.Rows.{Job, Database, blank}
use sftp_relay.Db.Queue.{runnable_jobs, set_job_status, joined, is_waiting}
use sftp_relay.Db.Settings.{settings}
use sftp_relay.Jobs.State.{transition, status_running}
use sftp_relay.Jobs.Manager.{
  starting, sizing, transferring, Manager, Worker, setting_int, seconds, if_legal,
}
use sftp_relay.Jobs.Manager.Run.{on_line, poll, run_end}
use sftp_relay.Jobs.Manager.Schedule.{
  plan, start_next, start_job, start_first, after_mark, concurrency, free,
}
use sftp_relay.Jobs.Manager.Quiet.{Quiet, Quiet-refl, Settled, set_job_status-Settled}
use sftp_relay.Jobs.Manager.Running.{
  run_begin-Quiet, run_sized-Quiet, on_line-Quiet, poll-Quiet, run_end-Quiet,
}
use sftp_relay.Jobs.Manager.Steps.{
  Act, plans, starts, begins, sized, prints, polls, ends, creates, announces, cancels,
  cancels_context, retries, purges, stops, step, run, begin_at, begin_in, sized_at, sized_in,
  at_transfer, transfer_in, worker_of,
}
use sftp_relay.Base.Int.{ℤ}
use sftp_relay.Jobs.Tracker.{Tracker}
use sftp_relay.Db.Rows.{Server}
use sftp_relay.Jobs.Manager.Calls.{
  create_job-Quiet, cancel_row-Quiet, cancel_context_of-Quiet, retry-Quiet, purge-Quiet, stop-Quiet,
  announce-Quiet,
}

-- The setting, and what counts against it: the keys in the map, and the jobs that the current tick is
-- still going to start.
pub record Fits (c : ℕ) (m : Manager) : Type 0 where
  pub setting : concurrency m ≡ c
  pub room : length m.running + length m.waiting ≤ c

Quiet-Fits : (c : ℕ) (a b : Manager) → Quiet a b → Fits c a → Fits c b
unfolding settings
Quiet-Fits c a b q h = record {
  setting = ap (λ s. setting_int s "concurrency" 2) q.same_settings ∙ h.setting;
  room = omega (arith, q.no_more_running, h.room, ap (length {0} {A = Job}) q.same_waiting);
}

plan-Fits : (c : ℕ) (m : Manager) → Fits c m → Fits c (plan m)
unfolding plan runnable_jobs
plan-Fits c m h = elim (Bool-cases (free m == 0 || m.stopping)) [
  | inl stays ↦ rw stays h
  | inr goes ↦ rw goes (record {
    setting = h.setting;
    room = omega (
      arith,
      h.setting,
      h.room,
      length-take-le (free m) (keep is_waiting (reverse (joined m.db.servers m.db.jobs))),
    );
  })
]

start_legal-Fits :
    (c : ℕ) (j : Job) (m : Manager) (r : Result Database) (o : Option Error)
    → concurrency m ≡ c
    → suc (length m.running + length m.waiting) ≤ c
    → Settled m.db.settings r
    → Fits c (if_legal o (after_mark j r m) m)
unfolding settings
start_legal-Fits c j m r (some e) setting room s = record {
  setting = setting;
  room = omega (arith, room);
}
start_legal-Fits c j m (err e) none setting room s = record {
  setting = setting;
  room = omega (arith, room);
}
start_legal-Fits c j m (ok db) none setting room s = elim (Bool-cases m.stopping) [
  | inl halted ↦ rw halted (record {
    setting = ap (λ t. setting_int t "concurrency" 2) s ∙ setting;
    room = omega (arith, room);
  })
  | inr open_ ↦ rw open_ (record {
    setting = ap (λ t. setting_int t "concurrency" 2) s ∙ setting;
    room = omega (arith, room, length-keep-le (λ k. not (k == j.id)) m.running);
  })
]

start_job-Fits :
    (c now : ℕ) (j : Job) (m : Manager)
    → concurrency m ≡ c
    → suc (length m.running + length m.waiting) ≤ c
    → Fits c (start_job now j m)
start_job-Fits c now j m setting room =
    start_legal-Fits c j m (set_job_status (seconds now) j.id status_running blank none m.db)
      (transition j.status status_running) setting room
      (set_job_status-Settled (seconds now) j.id status_running blank none m.db)

start_first-Fits :
    (c now : ℕ) (js : List Job) (m : Manager)
    → m.waiting ≡ js
    → Fits c m
    → Fits c (start_first now js m)
start_first-Fits c now [] m e h = h
start_first-Fits c now (j ∷ js) m e h =
    start_job-Fits c now j (record m { waiting = js }) h.setting
      (omega (arith, h.room, ap (length {0} {A = Job}) e))

start_next-Fits : (c now : ℕ) (m : Manager) → Fits c m → Fits c (start_next now m)
unfolding start_next
start_next-Fits c now m h = start_first-Fits c now m.waiting m refl h

begin_at-Quiet : (now : ℕ) (o : Option Worker) (m : Manager) → Quiet m (begin_at now o m)
unfolding begin_at
begin_at-Quiet now none m = Quiet-refl m
begin_at-Quiet now (some w) m = elim w.phase as (λ p. Quiet m (begin_in p now w m)) [
  | starting ↦ run_begin-Quiet now w m
  | sizing server ↦ Quiet-refl m
  | transferring server t ↦ Quiet-refl m
]

sized_at-Quiet :
    (now : ℕ) (o : Option Worker) (r : Result ℤ) (m : Manager) → Quiet m (sized_at now o r m)
unfolding sized_at
sized_at-Quiet now none r m = Quiet-refl m
sized_at-Quiet now (some w) r m = elim w.phase as (λ p. Quiet m (sized_in p now w r m)) [
  | starting ↦ Quiet-refl m
  | sizing server ↦ run_sized-Quiet now w server r m
  | transferring server t ↦ Quiet-refl m
]

at_transfer-Quiet :
    (o : Option Worker) (f : Worker → Server → Tracker → Manager → Manager) (m : Manager)
    → ((w : Worker) (server : Server) (t : Tracker) → Quiet m (f w server t m))
    → Quiet m (at_transfer o f m)
at_transfer-Quiet none f m q = Quiet-refl m
at_transfer-Quiet (some w) f m q = elim w.phase as (λ p. Quiet m (transfer_in p f w m)) [
  | starting ↦ Quiet-refl m
  | sizing server ↦ Quiet-refl m
  | transferring server t ↦ q w server t
]

step-Fits : (c now : ℕ) (a : Act) (m : Manager) → Fits c m → Fits c (step now a m)
unfolding step
step-Fits c now plans m h = plan-Fits c m h
step-Fits c now starts m h = start_next-Fits c now m h
step-Fits c now (begins id) m h = Quiet-Fits c m _ (begin_at-Quiet now (worker_of id m) m) h
step-Fits c now (sized id r) m h = Quiet-Fits c m _ (sized_at-Quiet now (worker_of id m) r m) h
step-Fits c now (prints id text p) m h =
    Quiet-Fits c m _
      (at_transfer-Quiet (worker_of id m) (λ w server t. on_line now w server t text p) m
        (λ w server t. on_line-Quiet now w server t text p m))
      h
step-Fits c now (polls id r) m h =
    Quiet-Fits c m _
      (at_transfer-Quiet (worker_of id m) (λ w server t. poll now w server t r) m
        (λ w server t. poll-Quiet now w server t r m))
      h
step-Fits c now (ends id o) m h =
    Quiet-Fits c m _
      (at_transfer-Quiet (worker_of id m) (λ w server t. run_end now w server t o) m
        (λ w server t. run_end-Quiet now w server t o m))
      h
step-Fits c now (creates j) m h = Quiet-Fits c m _ (create_job-Quiet (seconds now) j m) h
step-Fits c now (announces id) m h = Quiet-Fits c m _ (announce-Quiet now id m) h
step-Fits c now (cancels id) m h = Quiet-Fits c m _ (cancel_row-Quiet now id m) h
step-Fits c now (cancels_context id) m h = Quiet-Fits c m _ (cancel_context_of-Quiet now id m) h
step-Fits c now (retries id) m h = Quiet-Fits c m _ (retry-Quiet now id m) h
step-Fits c now purges m h = Quiet-Fits c m _ (purge-Quiet now m) h
step-Fits c now stops m h = Quiet-Fits c m _ (stop-Quiet m) h

run-Fits : (c : ℕ) (acts : List (ℕ × Act)) (m : Manager) → Fits c m → Fits c (run acts m)
unfolding run
run-Fits c [] m h = h
run-Fits c ((now, a) ∷ acts) m h = run-Fits c acts (step now a m) (step-Fits c now a m h)

-- From a pool in which nothing runs, and whatever the scheduler, the workers, the transfers and the API
-- do in whatever order, the map of running jobs is never larger than the concurrency setting, as long
-- as the setting is not changed.
pub run-concurrency :
    (acts : List (ℕ × Act)) (m : Manager)
    → m.running ≡ []
    → m.waiting ≡ []
    → length (run acts m).running ≤ concurrency m
run-concurrency acts m none_running none_waiting = omega (
  arith,
  run-Fits (concurrency m) acts m (record {
    setting = refl;
    room =
        omega (arith, ap (length {0} {A = ℕ}) none_running, ap (length {0} {A = Job}) none_waiting);
  }),
)
