-- ===== src/Api/Stream.antt =====
-- The event stream (internal/api/jobs.go): a client gets a snapshot, then every event of its channel
-- until it leaves, falls behind, or does not take a frame. What wakes the handler is a list; whether an
-- event has an encoding and whether the client takes a frame after others are parameters.
pub mod Numbering
pub mod Following
use sftp_relay.Base.{ℕ, suc, String, List, [], ◌∷◌, Bool, true, false, if◌then◌else◌, not}
use sftp_relay.Db.Rows.{Job, Database, blank}
use sftp_relay.Db.Queue.{list_jobs}
use sftp_relay.Events.{Event, type_snapshot}
use sftp_relay.Jobs.View.{View}
use sftp_relay.Jobs.Manager.{Payload}
use sftp_relay.Api.Jobs.{views_of}

pub data Data : Type 0 where
  snapshot : List View → Data
  published : Payload → Data

-- What wakes the loop: an event, the end of the channel, a heartbeat, or the end of the request.
pub data Wake : Type 0 where
  heard : Event Payload → Wake
  dropped : Wake
  ticked : Wake
  left : Wake

pub data Frame : Type 0 where
  event_frame : ℕ → Event Data → Frame
  ping_frame : Frame

abbrev pub snapshot_limit : ℕ
snapshot_limit = 200

abbrev pub sent : Event Payload → Event Data
sent e = record { type = e.type; job_id = e.job_id; payload = published e.payload }

abbrev pub snapshot_event : Database → Event Data
snapshot_event db = record {
  type = type_snapshot;
  job_id = 0;
  payload = snapshot (views_of (list_jobs "" snapshot_limit 0 db));
}

module _ (encodes : Event Data → Bool) (takes : List Frame → Frame → Bool) where
  -- The frames that were written, newest first, the last number, and whether the client still reads.
  pub record Written : Type 0 where
    pub frames : List Frame
    pub seq : ℕ
    pub reads : Bool

  abbrev pub put : Frame → ℕ → List Frame → Written
  put f seq frames =
      if takes frames f
      then record { frames = f ∷ frames; seq = seq; reads = true }
      else record { frames = frames; seq = seq; reads = false }

  -- An event without an encoding is passed over, and takes no number.
  unfoldable pub write_event : Event Data → ℕ → List Frame → Written
  write_event e seq frames =
      if encodes e
      then put (event_frame (suc seq) e) (suc seq) frames
      else record { frames = frames; seq = seq; reads = true }

  abbrev pub carry_on : Written → (ℕ → List Frame → List Frame) → List Frame
  carry_on w next = if w.reads then next w.seq w.frames else w.frames

  unfoldable pub serve : List Wake → ℕ → List Frame → List Frame
  unfolding write_event
  serve [] seq frames = frames
  serve (heard e ∷ ws) seq frames = carry_on (write_event (sent e) seq frames) (serve ws)
  serve (dropped ∷ ws) seq frames = frames
  serve (ticked ∷ ws) seq frames = carry_on (put ping_frame seq frames) (serve ws)
  serve (left ∷ ws) seq frames = frames

  unfoldable pub stream : Database → List Wake → List Frame
  unfolding serve list_jobs
  stream db ws = carry_on (write_event (snapshot_event db) 0 []) (serve ws)
