-- ===== src/Api/Stream/Following.antt =====
-- A client of the event stream and the hub (internal/api/jobs.go and internal/events/events.go): the
-- handler subscribes, and writes what it takes from its channel.
use sftp_relay.Base.{List, [], ◌++◌, keep, Bool, ◌≡◌, true}
use sftp_relay.Events.{Event, Channel}
use sftp_relay.Jobs.Manager.{Payload}
use sftp_relay.Api.Stream.{Data, Frame}
use sftp_relay.Api.Stream.Numbering.{events_in, numbered, onto, TakesAll}

module _ (encodes : Event Data → Bool) (takes : List Frame → Frame → Bool) where
  -- The frames show, numbered from 1, the first ones of some events that have an encoding; and all of
  -- them, if `P` holds.
  abbrev pub Shows : Type 0 → List (Event Data) → List Frame → Type 0
  Shows P es frames =
      (read : List (Event Data)) × (later : List (Event Data)) × (events_in frames
        ≡ numbered (onto read []))
      × (keep encodes es ≡ read ++ later)
      × (P → later ≡ [])

  -- The client takes every frame, and has emptied its channel, which is still open.
  abbrev pub IsCaughtUp : Channel Payload → Type 0
  IsCaughtUp c = TakesAll encodes takes × (c.is_open ≡ true) × (c.queue ≡ [])
