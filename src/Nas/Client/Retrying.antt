-- ===== src/Nas/Client/Retrying.antt =====
-- What a call through the session keeps, with its one retry (internal/nas/nas.go).
use sftp_relay.Base.{Bool, Error, Result, ok, err, Bool-cases, ◌⊎◌, inl, inr, ◌≡◌, ap, ◌∙◌}
use sftp_relay.Nas.Client.{
  Session, Client, Wire, connect, disconnect, run_on, again, first_then, with_session,
}

module _ {A R : Type 0} (is_broken : Error → Bool) (fn : Session → R → Result A × R) where
  -- A run of `fn` that gave the result, from a world that `P` holds of.
  abbrev pub Ran : (R → Type 0) → A → R → Type 0
  Ran P a r' = (s : Session) × (r : R) × P r × (fn s r ≡ (ok a, r'))

  run_on_ok :
      (x : Result Session × Client) (r : R) (a : A) (c' : Client) (r' : R)
      → run_on is_broken fn x r ≡ (ok a, c', r')
      → (s : Session) × (fn s r ≡ (ok a, r'))
  run_on_ok (err e, c) r a c' r' h = cc (ap (λ y. y.0) h)
  run_on_ok (ok s, c) r a c' r' h = (s, ap (λ y. (y.0, y.2)) h)

  again_ok :
      (w : Wire) (x : Result A) (c : Client) (r : R) (a : A) (c' : Client) (r' : R)
      → again is_broken fn w (x, c, r) ≡ (ok a, c', r')
      → ((x ≡ ok a) × (r ≡ r')) ⊎ ((s : Session) × (fn s r ≡ (ok a, r')))
  again_ok w (ok b) c r a c' r' h = inl (ap (λ y. y.0) h, ap (λ y. y.2) h)
  again_ok w (err e) c r a c' r' h = elim (Bool-cases (is_broken e)) [
    | inl b ↦ inr (run_on_ok (connect w (disconnect c)) r a c' r' (rw b at h))
    | inr b ↦ cc (ap (λ y. y.0) (rw b at h))
  ]

  module _ (P : R → Type 0) (keeps : (s : Session) (r : R) → P r → P (fn s r).1) where
    first_then_ok :
        (w : Wire) (x : Result Session × Client) (r : R) (a : A) (c' : Client) (r' : R)
        → P r
        → first_then is_broken fn w x r ≡ (ok a, c', r')
        → Ran P a r'
    first_then_ok w (err e, c) r a c' r' p h = cc (ap (λ y. y.0) h)
    first_then_ok w (ok s, c) r a c' r' p h = elim (again_ok w (fn s r).0 c (fn s r).1 a c' r' h) [
      | inl (x, y) ↦ (s, r, p, ap (λ b. (b, (fn s r).1)) x ∙ ap (λ q. (ok a, q)) y)
      | inr (s₂, second) ↦ (s₂, (fn s r).1, keeps s r p, second)
    ]

    -- A call that succeeds ends with a run that gave its result.
    pub with_session_ok :
        (w w' : Wire) (c : Client) (r : R) (a : A) (c' : Client) (r' : R)
        → P r
        → with_session is_broken fn w w' c r ≡ (ok a, c', r')
        → Ran P a r'
    unfolding with_session
    with_session_ok w w' c r a c' r' p h = first_then_ok w' (connect w c) r a c' r' p h

    run_on_keeps : (x : Result Session × Client) (r : R) → P r → P (run_on is_broken fn x r).2
    run_on_keeps (err e, c) r p = p
    run_on_keeps (ok s, c) r p = keeps s r p

    again_keeps :
        (w : Wire) (x : Result A) (c : Client) (r : R) → P r → P (again is_broken fn w (x, c, r)).2
    again_keeps w (ok b) c r p = p
    again_keeps w (err e) c r p = elim (Bool-cases (is_broken e)) [
      | inl b ↦ rw b (run_on_keeps (connect w (disconnect c)) r p)
      | inr b ↦ rw b p
    ]

    first_then_keeps :
        (w : Wire) (x : Result Session × Client) (r : R) → P r → P (first_then is_broken fn w x r).2
    first_then_keeps w (err e, c) r p = p
    first_then_keeps w (ok s, c) r p = again_keeps w (fn s r).0 c (fn s r).1 (keeps s r p)

    -- What every run keeps, a call keeps, however it ends.
    pub with_session-keeps :
        (w w' : Wire) (c : Client) (r : R) → P r → P (with_session is_broken fn w w' c r).2
    unfolding with_session
    with_session-keeps w w' c r p = first_then_keeps w' (connect w c) r p
