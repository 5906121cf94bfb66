-- ===== src/Jobs/Tracker/Monotone.antt =====
-- Text only move forwards (internal/jobs/tracker.go).
use sftp_relay.Base.{ℕ, Bool, List, [], ◌∷◌, not, ◌&&◌, ◌||◌, arith}
use sftp_relay.Base.Int.{ℤ, ◌≤ℤ◌, ≤ℤ_trans, ≤ℤ_refl}
use sftp_relay.Jobs.Tracker.{
  Tracker, Flush, Step, progress, size, completion, flush_check, too_early, step, run,
}

step-bytes : (s : Step) (t : Tracker) → t.bytes ≤ℤ (step s t).0.bytes
unfolding step
step-bytes (progress p now) t = ground arith
step-bytes (size n) t = ground arith
step-bytes completion t = ground arith
step-bytes (flush_check force now) t = ground arith

-- Under any interleaving of its steps the tracker's byte count never falls.
pub run-bytes : (ss : List Step) (t : Tracker) → t.bytes ≤ℤ (run ss t).0.bytes
unfolding run
run-bytes [] t = ≤ℤ_refl t.bytes
run-bytes (s ∷ ss) t =
    ≤ℤ_trans t.bytes (step s t).0.bytes (run ss (step s t).0).0.bytes (step-bytes s t)
      (run-bytes ss (step s t).0)

-- Each flush reports at least as many bytes as the one before it, and no more than the end.
abbrev pub Rising : ℤ → List Flush → ℤ → Type 0
Rising low [] high = low ≤ℤ high
Rising low (f ∷ fs) high = (low ≤ℤ f.bytes) × Rising f.bytes fs high

-- The test on which `maybeFlush` returns early.
abbrev pub skips : Bool → ℕ → Tracker → Bool
skips force now t = not t.dirty || (not force && too_early t.last_flush now)
