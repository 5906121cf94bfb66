-- ===== src/Jobs/Tracker/Flushing.antt =====
-- The rate and the content of the flushes (internal/jobs/tracker.go).
use sftp_relay.Base.{
  ℕ, ◌+◌, ◌≤◌, Bool, true, false, not, ◌&&◌, Bool-cases, Option, none, some, List, [], ◌∷◌, ◌≡◌,
  ◌⊎◌, refl, inl, inr, arith, subst,
}
use sftp_relay.Base.Int.{ℤ, pos, ◌≤ℤ◌}
use sftp_relay.Jobs.Tracker.{
  Tracker, Flush, Step, progress, size, completion, flush_check, flush_interval, too_early,
  note_size, note_complete, maybe_flush, step, run, cons_flush, complete, snapshot_at, new_tracker,
}
use sftp_relay.Jobs.Tracker.Monotone.{skips}

-- An unforced flush comes a whole interval after the flush before it, forced or not.
abbrev pub Apart : Option ℕ → Flush → Type 0
Apart none f = Unit
Apart (some last) f = (f.forced ≡ true) ⊎ (last + flush_interval ≤ f.at)

abbrev pub Spaced : Option ℕ → List Flush → Type 0
Spaced last [] = Unit
Spaced last (f ∷ fs) = Apart last f × Spaced (some f.at) fs

Apart-snapshot_at :
    (last : Option ℕ) (force : Bool) (now : ℕ) (t : Tracker)
    → (not force && too_early last now) ≡ false
    → Apart last (snapshot_at now force t)
Apart-snapshot_at none force now t h = tt
Apart-snapshot_at (some last) true now t h = inl refl
Apart-snapshot_at (some last) false now t h = inr (ground arith)

last_flush-note_size : (n : ℤ) (t : Tracker) → (note_size n t).last_flush ≡ t.last_flush
unfolding note_size
last_flush-note_size n t = ground arith

Spaced-step :
    (s : Step) (t : Tracker) (fs : List Flush)
    → Spaced (step s t).0.last_flush fs
    → Spaced t.last_flush (cons_flush (step s t).1 fs)
unfolding step
Spaced-step (progress p now) t fs r = r
Spaced-step (size n) t fs r = subst (λ o. Spaced o fs) (last_flush-note_size n t) r
Spaced-step completion t fs r = r
Spaced-step (flush_check force now) t fs r = elim (Bool-cases (skips force now t)) [
  | inl e ↦ rw (e, maybe_flush) (rw (e, maybe_flush) at r)
  | inr e ↦
      rw (e, maybe_flush)
        (Apart-snapshot_at t.last_flush force now t (ground arith), rw (e, maybe_flush) at r)
]

-- Under any interleaving, an unforced flush comes a whole second after the flush before it.
pub run-Spaced : (ss : List Step) (t : Tracker) → Spaced t.last_flush (run ss t).1
unfolding run
run-Spaced [] t = tt
run-Spaced (s ∷ ss) t = Spaced-step s t (run ss (step s t).0).1 (run-Spaced ss (step s t).0)

-- Completion always flushes, with no speed and no time left, and with at least the total.
pub complete_flushes :
    (now : ℕ) (t : Tracker)
    → (f : Flush) × ((complete now t).1 ≡ some f)
      × (f.bytes ≡ (complete now t).0.bytes)
      × (f.speed ≡ pos 0)
      × (f.eta ≡ pos 0)
      × (t.total ≤ℤ f.bytes)
      × (t.bytes ≤ℤ f.bytes)
      × ((complete now t).0.dirty ≡ false)
unfolding complete note_complete maybe_flush
complete_flushes now t = (
  snapshot_at now true (note_complete t),
  refl,
  refl,
  refl,
  refl,
  ground arith,
  ground arith,
  refl,
)

-- The last flush of a trace that follows the flush `o`.
abbrev pub latest : Option Flush → List Flush → Option Flush
latest o [] = o
latest o (f ∷ fs) = latest (some f) fs

-- What the flush function was last given: before any flush, nothing but zeros.
abbrev pub reported : Option Flush → ℤ × ℤ × ℤ
reported none = (pos 0, pos 0, pos 0)
reported (some f) = (f.bytes, f.speed, f.eta)

abbrev pub IsReported : Option Flush → Tracker → Type 0
IsReported o t = t.dirty ≡ false → reported o ≡ (t.bytes, t.speed, t.eta)

abbrev pub after : Option Flush → Option Flush → Option Flush
after o none = o
after o (some f) = some f

step-IsReported :
    (o : Option Flush) (s : Step) (t : Tracker)
    → IsReported o t
    → IsReported (after o (step s t).1) (step s t).0
unfolding step
step-IsReported o (progress p now) t h = λ d. cc
step-IsReported o (size n) t h = ground (arith, h)
step-IsReported o completion t h = λ d. cc
step-IsReported o (flush_check force now) t h = elim (Bool-cases (skips force now t)) [
  | inl e ↦ rw (e, maybe_flush) h
  | inr e ↦ rw (e, maybe_flush) (λ d. refl)
]

latest-cons_flush :
    (o m : Option Flush) (fs : List Flush) → latest o (cons_flush m fs) ≡ latest (after o m) fs
latest-cons_flush o none fs = refl
latest-cons_flush o (some f) fs = refl

run-IsReported :
    (o : Option Flush) (ss : List Step) (t : Tracker)
    → IsReported o t
    → IsReported (latest o (run ss t).1) (run ss t).0
unfolding run
run-IsReported o [] t h = h
run-IsReported o (s ∷ ss) t h =
    rw latest-cons_flush
      (run-IsReported (after o (step s t).1) ss (step s t).0 (step-IsReported o s t h))

-- A tracker that is not dirty has nothing left to tell: after any steps from a new tracker, its
-- bytes, speed and time left are those of the last flush, or zeros if there was none.
pub clean_is_reported :
    (total : ℤ) (ss : List Step)
    → (run ss (new_tracker total)).0.dirty ≡ false
    → let (t, fs) = run ss (new_tracker total) in
      reported (latest none fs) ≡ (t.bytes, t.speed, t.eta)
unfolding new_tracker
clean_is_reported total ss clean = run-IsReported none ss (new_tracker total) (λ d. refl) clean
