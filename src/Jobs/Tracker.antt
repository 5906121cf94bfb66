-- ===== src/Jobs/Tracker.antt =====
-- internal/jobs/tracker.go: the progress of one job. A time is a number of nanoseconds, read by the
-- caller from the clock; `none` is the zero time. The steps between two takings of the mutex are the
-- constructors of `Step`, so that a trace shows how the log reader and the size poll interleave.
pub mod Monotone
pub mod Flushing
use sftp_relay.Base.{
  ℕ, ◌-◌, ◌*◌, Bool, true, false, not, ◌&&◌, ◌||◌, Option, none, some, List, [], ◌∷◌, ◌++◌, leb,
  ltb, if◌then◌else◌,
}
use sftp_relay.Base.Int.{ℤ, pos, negsuc, ltb_ℤ, mul64, quot}
use sftp_relay.Nas.Progress.{Progress}

-- One second and ten seconds, in nanoseconds.
abbrev pub flush_interval : ℕ
flush_interval = 1000000000

abbrev pub stale_after : ℕ
stale_after = 10000000000

pub record Tracker : Type 0 where
  pub total : ℤ
  pub bytes : ℤ
  pub speed : ℤ
  pub eta : ℤ
  pub last_parse : Option ℕ
  pub last_flush : Option ℕ
  pub dirty : Bool

-- What one call of the flush function is given, with the time of the call.
pub record Flush : Type 0 where
  pub at : ℕ
  pub forced : Bool
  pub bytes : ℤ
  pub speed : ℤ
  pub eta : ℤ

unfoldable pub new_tracker : ℤ → Tracker
new_tracker total = record {
  total = total;
  bytes = pos 0;
  speed = pos 0;
  eta = pos 0;
  last_parse = none;
  last_flush = none;
  dirty = false;
}

-- `t.total * int64(p.Percent) / 100`
unfoldable pub bytes_of_percent : ℤ → ℤ → ℤ
bytes_of_percent total percent = quot (mul64 total percent) 100

abbrev pub raise_to : ℤ → ℤ → ℤ
raise_to b bytes = if ltb_ℤ bytes b then b else bytes

-- The first locked part of `observe`.
unfoldable pub note_progress : Progress → ℕ → Tracker → Tracker
note_progress p now t =
    let total = if ltb_ℤ (pos 0) p.total then p.total else t.total in
    let implied =
      if not (ltb_ℤ p.percent (pos 0)) && ltb_ℤ (pos 0) total
      then raise_to (bytes_of_percent total p.percent) t.bytes
      else t.bytes in
    record t {
      last_parse = some now;
      total = total;
      speed = if ltb_ℤ (pos 0) p.speed_bps then p.speed_bps else t.speed;
      eta = if ltb_ℤ (pos 0) p.eta_seconds then p.eta_seconds else t.eta;
      bytes = raise_to p.bytes implied;
      dirty = true;
    }

-- The first locked part of `observeSize`.
unfoldable pub note_size : ℤ → Tracker → Tracker
note_size n t = if ltb_ℤ t.bytes n then record t { bytes = n; dirty = true } else t

-- The first locked part of `complete`.
unfoldable pub note_complete : Tracker → Tracker
note_complete t = record t {
  bytes = if ltb_ℤ t.bytes t.total then t.total else t.bytes;
  speed = pos 0;
  eta = pos 0;
  dirty = true;
}

-- `now.Sub(last) < interval`; a time before `last` counts as too early.
abbrev pub too_early : Option ℕ → ℕ → Bool
too_early none now = false
too_early (some last) now = ltb (now - last) flush_interval

abbrev pub snapshot_at : ℕ → Bool → Tracker → Flush
snapshot_at now force t = record {
  at = now;
  forced = force;
  bytes = t.bytes;
  speed = t.speed;
  eta = t.eta;
}

unfoldable pub maybe_flush : Bool → ℕ → Tracker → Tracker × Option Flush
maybe_flush force now t =
    if not t.dirty || (not force && too_early t.last_flush now)
    then (t, none)
    else (record t { last_flush = some now; dirty = false }, some (snapshot_at now force t))

unfoldable pub stale : ℕ → Tracker → Bool
stale now t = elim t.last_parse [ none ↦ true | some last ↦ leb stale_after (now - last) ]

-- The methods with nothing between their two locked parts; each reads the clock again to flush.
unfoldable pub observe : Progress → ℕ → ℕ → Tracker → Tracker × Option Flush
observe p now flush_now t = maybe_flush false flush_now (note_progress p now t)

unfoldable pub observe_size : ℤ → ℕ → Tracker → Tracker × Option Flush
observe_size n flush_now t = maybe_flush false flush_now (note_size n t)

unfoldable pub complete : ℕ → Tracker → Tracker × Option Flush
complete flush_now t = maybe_flush true flush_now (note_complete t)

unfoldable pub snapshot : Tracker → ℤ × ℤ × ℤ × ℤ
snapshot t = (t.bytes, t.total, t.speed, t.eta)

pub data Step : Type 0 where
  progress : Progress → ℕ → Step
  size : ℤ → Step
  completion : Step
  flush_check : Bool → ℕ → Step

unfoldable pub step : Step → Tracker → Tracker × Option Flush
unfolding note_progress note_size note_complete maybe_flush
step (progress p now) t = (note_progress p now t, none)
step (size n) t = (note_size n t, none)
step completion t = (note_complete t, none)
step (flush_check force now) t = maybe_flush force now t

abbrev pub cons_flush : Option Flush → List Flush → List Flush
cons_flush none fs = fs
cons_flush (some f) fs = f ∷ fs

-- Any interleaving of steps, with the flushes that it makes, in order.
unfoldable pub run : List Step → Tracker → Tracker × List Flush
run [] t = (t, [])
run (s ∷ ss) t = let (t', f) = step s t in let (t'', fs) = run ss t' in (t'', cons_flush f fs)
