-- ===== src/Examples/Tracker.antt =====
-- A short transfer (internal/jobs/tracker.go).
use sftp_relay.Base.{true, false, List, [], ◌∷◌, ◌≡◌, refl}
use sftp_relay.Base.Int.{pos}
use sftp_relay.Nas.Progress.{Progress}
use sftp_relay.Jobs.Tracker.{Step, progress, size, completion, flush_check, new_tracker, run, step}

abbrev half : Progress
half = record {
  total = pos 0;
  percent = pos 50;
  bytes = pos 0;
  speed_bps = pos 10;
  eta_seconds = pos 20;
  final = false;
}

abbrev transfer_steps : List Step
transfer_steps =
    progress half 1000
    ∷ flush_check false 1000
    ∷ size (pos 3000)
    ∷ flush_check false 2000
    ∷ completion
    ∷ flush_check true 3000
    ∷ []

ends_clean : (run transfer_steps (new_tracker (pos 4000))).0.dirty ≡ false
unfolding run step new_tracker
ends_clean = refl
