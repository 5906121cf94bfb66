-- ===== src/Events.antt =====
-- internal/events/events.go: the hub that fans events out to the clients. The payload of an event is
-- any type. `channels` holds every channel that the hub made, newest first: its buffer, and whether it
-- is open. The map `subs` of the program is the open ones; a channel that was closed is still
-- drained by its reader. The clock is an argument, in nanoseconds. A publish treats each subscriber
-- by itself, so the random order of Go's iteration over the map makes no difference.
pub mod Coalescing
pub mod Trace
mod Channels
pub mod Delivery
pub mod Buffers
use sftp_relay.Base.{
  map, ℕ, suc, ◌-◌, String, Bool, true, false, Option, none, some, List, [], ◌∷◌, ◌++◌, length,
  keep, not, ltb, ◌==◌, str_eq, ◌||◌, ◌&&◌, if◌then◌else◌,
}

abbrev pub type_created : String
type_created = "job.created"

abbrev pub type_progress : String
type_progress = "job.progress"

abbrev pub type_done : String
type_done = "job.done"

abbrev pub type_failed : String
type_failed = "job.failed"

abbrev pub type_log : String
type_log = "job.log"

abbrev pub type_snapshot : String
type_snapshot = "snapshot"

pub record Event {ℓ} (D : Type ℓ) : Type ℓ where
  pub type : String
  pub job_id : ℕ
  pub payload : D

abbrev pub buffer_size : ℕ
buffer_size = 64

-- One second, in nanoseconds.
abbrev pub progress_interval : ℕ
progress_interval = 1000000000

pub record Channel {ℓ} (D : Type ℓ) : Type ℓ where
  pub id : ℕ
  pub queue : List (Event D)
  pub is_open : Bool

pub record Hub {ℓ} (D : Type ℓ) : Type ℓ where
  pub channels : List (Channel D)
  pub next_id : ℕ
  pub last_sent : List (ℕ × ℕ)

-- The per-job clock: a map from job ids to times.
abbrev pub last_of : ℕ → List (ℕ × ℕ) → Option ℕ
last_of j [] = none
last_of j ((k, t) ∷ m) = let rest = last_of j m in if k == j then some t else rest

unfoldable pub forget : ℕ → List (ℕ × ℕ) → List (ℕ × ℕ)
forget j [] = []
forget j ((k, t) ∷ m) = let rest = forget j m in if k == j then rest else (k, t) ∷ rest

unfoldable pub remember : ℕ → ℕ → List (ℕ × ℕ) → List (ℕ × ℕ)
unfolding forget
remember j t m = (j, t) ∷ forget j m

abbrev pub too_soon : Option ℕ → ℕ → Bool
too_soon none now = false
too_soon (some last) now = ltb (now - last) progress_interval

module _ {ℓ} {D : Type ℓ} where
  unfoldable pub subscribe : Hub D → Hub D × ℕ
  subscribe h =
      let id = suc h.next_id in
      let ch : Channel D = record { id = id; queue = []; is_open = true } in
      (record h { next_id = id; channels = ch ∷ h.channels }, id)

  abbrev pub close_if : ℕ → Channel D → Channel D
  close_if i c = if c.id == i then record c { is_open = false } else c

  unfoldable pub drop : ℕ → Hub D → Hub D
  drop i h = record h { channels = map (close_if i) h.channels }

  unfoldable pub unsubscribe : ℕ → Hub D → Hub D
  unfolding drop
  unsubscribe i h = drop i h

  unfoldable pub count : Hub D → ℕ
  count h = length (keep (λ c. c.is_open) h.channels)

  abbrev pub push : Event D → Channel D → Channel D
  push e c = record c { queue = c.queue ++ e ∷ [] }

  -- The `select` of `Publish`: a channel with no room is dropped.
  abbrev pub offer : Event D → Channel D → Channel D
  offer e c =
      if c.is_open
      then (if ltb (length c.queue) buffer_size then push e c else record c { is_open = false })
      else c

  -- The test on which a progress event is dropped.
  abbrev pub coalesced : Event D → ℕ → Hub D → Bool
  coalesced e now h = str_eq e.type type_progress && too_soon (last_of e.job_id h.last_sent) now

  unfoldable pub next_last_sent : Event D → ℕ → List (ℕ × ℕ) → List (ℕ × ℕ)
  next_last_sent e now m =
      if str_eq e.type type_progress
      then remember e.job_id now m
      else if str_eq e.type type_done || str_eq e.type type_failed
      then forget e.job_id m
      else m

  unfoldable pub publish : Event D → ℕ → Hub D → Hub D
  publish e now h = if coalesced e now h then h else record h {
    last_sent = next_last_sent e now h.last_sent;
    channels = map (offer e) h.channels;
  }

  abbrev pub channel_of : ℕ → List (Channel D) → Option (Channel D)
  channel_of i [] = none
  channel_of i (c ∷ cs) = let rest = channel_of i cs in if c.id == i then some c else rest

  abbrev pub next_event : Option (Channel D) → Option (Event D)
  next_event none = none
  next_event (some c) = elim c.queue [ [] ↦ none | e ∷ es ↦ some e ]

  abbrev pub pop_if : ℕ → Channel D → Channel D
  pop_if i c = if c.id == i then record c { queue = elim c.queue [ [] ↦ [] | e ∷ es ↦ es ] } else c

  -- A client takes the next event of its channel, open or closed, if there is one.
  unfoldable pub receive : ℕ → Hub D → Hub D × Option (Event D)
  receive i h =
      (record h { channels = map (pop_if i) h.channels }, next_event (channel_of i h.channels))

unfoldable pub new_hub {ℓ} : (D : Type ℓ) → Hub D
new_hub D = record { channels = []; next_id = 0; last_sent = [] }
