-- ===== src/Jobs/State.antt =====
-- internal/jobs/state.go: the job state machine. A status is the text that the database stores.
pub mod Machine
pub mod Lifecycle
use sftp_relay.Base.{
  String, Bool, true, false, Option, none, some, List, [], ◌∷◌, length, ◌==◌, if◌then◌else◌, lookup,
  Error, unknown_status, illegal_move,
}

abbrev pub status_queued : String
status_queued = "queued"

abbrev pub status_running : String
status_running = "running"

abbrev pub status_paused : String
status_paused = "paused"

abbrev pub status_done : String
status_done = "done"

abbrev pub status_failed : String
status_failed = "failed"

abbrev pub status_cancelled : String
status_cancelled = "cancelled"

abbrev pub status_interrupted : String
status_interrupted = "interrupted"

abbrev pub all_statuses : List String
all_statuses =
    status_queued ∷ status_running ∷ status_paused ∷ status_done ∷ status_failed ∷ status_cancelled
    ∷ status_interrupted ∷ []

abbrev pub Targets : Type 0
Targets = List (String × Bool)

abbrev pub transitions : List (String × Targets)
transitions =
    (status_queued, (status_running, true) ∷ (status_cancelled, true) ∷ (status_failed, true) ∷ [])
    ∷ (
      status_running,
      (status_done, true)
          ∷ (status_failed, true)
          ∷ (status_cancelled, true)
          ∷ (status_interrupted, true)
          ∷ (status_paused, true)
          ∷ [],
    )
    ∷ (
      status_paused,
      (status_queued, true) ∷ (status_running, true) ∷ (status_cancelled, true) ∷ [],
    )
    ∷ (
      status_interrupted,
      (status_queued, true)
          ∷ (status_running, true)
          ∷ (status_cancelled, true)
          ∷ (status_failed, true)
          ∷ [],
    )
    ∷ (status_done, [])
    ∷ (status_failed, [])
    ∷ (status_cancelled, [])
    ∷ []

-- A missing key of a map into bool reads as false, and so does one of a nil map.
abbrev pub allowed : Option Targets → String → Bool
allowed none to = false
allowed (some m) to = elim (lookup to m) [ none ↦ false | some b ↦ b ]

unfoldable pub can_transition : String → String → Bool
can_transition from to = allowed (lookup from transitions) to

abbrev pub is_known : String → Bool
is_known s = elim (lookup s transitions) [ none ↦ false | some m ↦ true ]

-- `none` is the nil error: the move is legal.
unfoldable pub transition : String → String → Option Error
transition from to =
    if is_known from
    then (if is_known to
        then (if allowed (lookup from transitions) to then none else some (illegal_move from to))
        else some (unknown_status to))
    else some (unknown_status from)

abbrev pub no_targets : Option Targets → Bool
no_targets none = false
no_targets (some m) = length m == 0

unfoldable pub terminal : String → Bool
terminal status = no_targets (lookup status transitions)
