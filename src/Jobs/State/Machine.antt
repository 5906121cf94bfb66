-- ===== src/Jobs/State/Machine.antt =====
-- What the transition table of internal/jobs/state.go promises.
use sftp_relay.Base.{
  String, Bool, true, false, none, some, ◌≡◌, ◌≢◌, ◌↔◌, ◌⊎◌, inl, inr, refl, arith, str_eq, eq_iff,
  Bool-cases, lookup, if◌then◌else◌, subst,
}
use sftp_relay.Jobs.State.{
  status_queued, status_running, status_paused, status_done, status_failed, status_cancelled,
  status_interrupted, transitions, can_transition, is_known, transition, terminal,
}

-- The seven statuses, and any other text.
pub data StatusView : String → Type 0 where
  queued : StatusView status_queued
  running : StatusView status_running
  paused : StatusView status_paused
  done : StatusView status_done
  failed : StatusView status_failed
  cancelled : StatusView status_cancelled
  interrupted : StatusView status_interrupted
  other : {s : String} → lookup s transitions ≡ none → StatusView s

view_if : (c s : String) → StatusView c → (str_eq c s ≡ false → StatusView s) → StatusView s
view_if c s at_c next = elim (Bool-cases (str_eq c s)) [
  | inl e ↦ subst StatusView ((eq_iff c s).0 e) at_c
  | inr e ↦ next e
]

pub status_view : (s : String) → StatusView s
status_view s = view_if status_queued s queued λ e1. view_if status_running s running λ e2.
    view_if status_paused s paused λ e3. view_if status_interrupted s interrupted λ e4.
      view_if status_done s done λ e5.
        view_if status_failed s failed
          λ e6. view_if status_cancelled s cancelled λ e7. other (rw (e1, e2, e3, e4, e5, e6, e7))

abbrev pub IsFinished : String → Type 0
IsFinished s = (s ≡ status_done) ⊎ ((s ≡ status_failed) ⊎ (s ≡ status_cancelled))

pub IsFinished-of_terminal : (s : String) → StatusView s → terminal s ≡ true → IsFinished s
unfolding terminal
IsFinished-of_terminal s queued h = cc
IsFinished-of_terminal s running h = cc
IsFinished-of_terminal s paused h = cc
IsFinished-of_terminal s done h = inl refl
IsFinished-of_terminal s failed h = inr (inl refl)
IsFinished-of_terminal s cancelled h = inr (inr refl)
IsFinished-of_terminal s interrupted h = cc
IsFinished-of_terminal s (other e) h = ground (arith, e)

-- A status is terminal exactly if it is done, failed or cancelled; an unknown text is not terminal.
pub terminal_iff : (s : String) → (terminal s ≡ true) ↔ IsFinished s
unfolding terminal
terminal_iff s = (
  IsFinished-of_terminal s (status_view s),
  λ h. elim h [ inl e ↦ rw e | inr f ↦ elim f [ inl e ↦ rw e | inr e ↦ rw e ] ],
)

pub known_source :
    (from to : String) → StatusView from → can_transition from to ≡ true → is_known from ≡ true
unfolding can_transition
known_source from to (other e) h = ground (arith, e)
known_source from to _ h = refl

known_target :
    (from to : String) → StatusView from → can_transition from to ≡ true → is_known to ≡ true
unfolding can_transition
known_target from to (other e) h = ground (arith, e)
known_target from to _ h = ground arith

-- The three tests of `Transition`, in its order.
module _ {ℓ} {A : Type ℓ} (x y z : A) where
  tests_pass :
      (a b c : Bool)
      → (if a then (if b then (if c then none else some x) else some y) else some z) ≡ none
      → c ≡ true
  tests_pass a b c h = ground arith

  tests_passed :
      (a b c : Bool)
      → a ≡ true
      → b ≡ true
      → c ≡ true
      → (if a then (if b then (if c then none else some x) else some y) else some z) ≡ none
  tests_passed a b c ha hb hc = ground arith

-- `Transition` accepts a move exactly if `CanTransition` reports it as legal.
pub transition-can_transition :
    (from to : String) → (transition from to ≡ none) ↔ (can_transition from to ≡ true)
unfolding transition can_transition
transition-can_transition from to = (
  tests_pass _ _ _ (is_known from) (is_known to) (can_transition from to),
  λ h.
      tests_passed _ _ _ _ _ _ (known_source from to (status_view from) h)
        (known_target from to (status_view from) h) h,
)

-- Nothing moves out of a terminal status: every move is refused, with the error that names it.
pub terminal_refuses : (s t : String) → terminal s ≡ true → transition s t ≢ none
unfolding transition
terminal_refuses s t h = elim ((terminal_iff s).0 h) [
  | inl e ↦ rw e (ground arith)
  | inr f ↦ elim f [ inl e ↦ rw e (ground arith) | inr e ↦ rw e (ground arith) ]
]

pub only_running_finishes :
    (s : String) → StatusView s → transition s status_done ≡ none → s ≡ status_running
unfolding transition
only_running_finishes s queued h = ground arith
only_running_finishes s running h = refl
only_running_finishes s paused h = ground arith
only_running_finishes s done h = ground arith
only_running_finishes s failed h = ground arith
only_running_finishes s cancelled h = ground arith
only_running_finishes s interrupted h = ground arith
only_running_finishes s (other e) h = ground (arith, e)
