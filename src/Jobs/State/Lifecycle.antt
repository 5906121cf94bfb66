-- ===== src/Jobs/State/Lifecycle.antt =====
-- The histories that the state machine of internal/jobs/state.go allows a job.
use sftp_relay.Base.{String, true, none, ◌≡◌, ◌⊎◌, inl, inr, refl, sym, subst}
use sftp_relay.Jobs.State.{status_done, status_running, transition, terminal}
use sftp_relay.Jobs.State.Machine.{status_view, terminal_refuses, only_running_finishes}

-- `t` comes after `s` by moves that `Transition` accepts.
pub data History (s : String) : String → Type 0 where
  here : History s s
  move : {t u : String} → History s t → transition t u ≡ none → History s u

-- A job that has reached a terminal status stays there: no history of moves leads out of it.
pub History-terminal : {s t : String} → terminal s ≡ true → History s t → t ≡ s
History-terminal h here = refl
History-terminal {s} h (move {t} {u} past m) =
    absurd
      (terminal_refuses t u (subst (λ x. terminal x ≡ true) (sym (History-terminal h past)) h) m)

-- A job that became done was running just before.
pub History-done :
    {s t : String} → History s t → t ≡ status_done → (s ≡ status_done) ⊎ History s status_running
History-done here e = inl e
History-done {s} (move {t} {u} past m) e = inr (
    subst (History s)
      (only_running_finishes t (status_view t) (subst (λ x. transition t x ≡ none) e m)) past)
