-- ===== src/Examples/State.antt =====
-- Concrete moves and percentages (internal/jobs/state.go, internal/jobs/view.go).
use sftp_relay.Base.{true, ◌≡◌, refl}
use sftp_relay.Jobs.State.{transition, terminal}
use sftp_relay.Jobs.State.Lifecycle.{History, here, move}

done_is_terminal : terminal "done" ≡ true
unfolding terminal
done_is_terminal = refl

resumed : History "interrupted" "done"
unfolding transition
resumed = move {t = "running"} (move {t = "interrupted"} here refl) refl
