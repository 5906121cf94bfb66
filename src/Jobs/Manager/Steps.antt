-- ===== src/Jobs/Manager/Steps.antt =====
-- The goroutines of internal/jobs/manager.go together: the scheduler, the workers, and the calls of the
-- API. An `Act` is one part of one of them between two waits; a list of acts is an interleaving.
use sftp_relay.Base.{ℕ, Text, Option, none, some, List, [], ◌∷◌, first, Result, ok, err}
use sftp_relay.Base.Int.{ℤ}
use sftp_relay.Db.Rows.{Server, Job, Database}
use sftp_relay.Db.Queue.{create_job}
use sftp_relay.Nas.Progress.{Progress}
use sftp_relay.Jobs.Tracker.{Tracker}
use sftp_relay.Jobs.Manager.{
  Manager, Worker, Phase, starting, sizing, transferring, is_worker, seconds,
}
use sftp_relay.Jobs.Manager.Run.{Outcome, run_begin, run_sized, on_line, poll, run_end}
use sftp_relay.Jobs.Manager.Schedule.{plan, start_next, purge}
use sftp_relay.Jobs.Manager.Commands.{cancel_row, cancel_context_of, retry, announce, stop}

pub data Act : Type 0 where
  plans : Act
  starts : Act
  begins : ℕ → Act
  sized : ℕ → Result ℤ → Act
  prints : ℕ → Text → Option Progress → Act
  polls : ℕ → Result ℤ → Act
  ends : ℕ → Outcome → Act
  creates : Job → Act
  announces : ℕ → Act
  cancels : ℕ → Act
  cancels_context : ℕ → Act
  retries : ℕ → Act
  purges : Act
  stops : Act

-- A failed call leaves the state as it was.
abbrev pub or_same : Manager → Result Manager → Manager
or_same m (ok m') = m'
or_same m (err e) = m

abbrev pub or_same_retry : Manager → Result (ℕ × Manager) → Manager
or_same_retry m (ok (id, m')) = m'
or_same_retry m (err e) = m

abbrev pub or_same_db : Manager → Result (ℕ × Database) → Manager
or_same_db m (ok (id, db)) = record m { db = db }
or_same_db m (err e) = m

-- An act of a goroutine that is not there, or not at that wait, does nothing.
abbrev pub begin_in : Phase → ℕ → Worker → Manager → Manager
begin_in starting now w m = run_begin now w m
begin_in (sizing server) now w m = m
begin_in (transferring server t) now w m = m

unfoldable pub begin_at : ℕ → Option Worker → Manager → Manager
begin_at now none m = m
begin_at now (some w) m = begin_in w.phase now w m

abbrev pub sized_in : Phase → ℕ → Worker → Result ℤ → Manager → Manager
sized_in starting now w r m = m
sized_in (sizing server) now w r m = run_sized now w server r m
sized_in (transferring server t) now w r m = m

unfoldable pub sized_at : ℕ → Option Worker → Result ℤ → Manager → Manager
sized_at now none r m = m
sized_at now (some w) r m = sized_in w.phase now w r m

abbrev pub transfer_in :
    Phase → (Worker → Server → Tracker → Manager → Manager) → Worker → Manager → Manager
transfer_in starting f w m = m
transfer_in (sizing server) f w m = m
transfer_in (transferring server t) f w m = f w server t m

abbrev pub at_transfer :
    Option Worker → (Worker → Server → Tracker → Manager → Manager) → Manager → Manager
at_transfer none f m = m
at_transfer (some w) f m = transfer_in w.phase f w m

abbrev pub worker_of : ℕ → Manager → Option Worker
worker_of id m = first (is_worker id) m.workers

unfoldable pub step : ℕ → Act → Manager → Manager
unfolding begin_at sized_at
step now plans m = plan m
step now starts m = start_next now m
step now (begins id) m = begin_at now (worker_of id m) m
step now (sized id r) m = sized_at now (worker_of id m) r m
step now (prints id text p) m =
    at_transfer (worker_of id m) (λ w server t. on_line now w server t text p) m
step now (polls id r) m = at_transfer (worker_of id m) (λ w server t. poll now w server t r) m
step now (ends id o) m = at_transfer (worker_of id m) (λ w server t. run_end now w server t o) m
step now (creates j) m = or_same_db m (create_job (seconds now) j m.db)
step now (announces id) m = announce now id m
step now (cancels id) m = or_same m (cancel_row now id m)
step now (cancels_context id) m = cancel_context_of now id m
step now (retries id) m = or_same_retry m (retry now id m)
step now purges m = purge now m
step now stops m = stop m

-- Each act with the time at which it happens.
unfoldable pub run : List (ℕ × Act) → Manager → Manager
run [] m = m
run ((now, a) ∷ acts) m = run acts (step now a m)
