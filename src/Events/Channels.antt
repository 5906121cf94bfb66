-- ===== src/Events/Channels.antt =====
-- What one call of internal/events/events.go does to one channel.
use mathlib.Core.Option
use sftp_relay.Base.{
  ℕ, Bool, true, false, ◌⊎◌, Bool-cases, Option, none, some, List, [], ◌∷◌, ◌++◌, ◌≡◌, refl, inl,
  inr, ◌==◌, map, length, append_assoc, append-nil, sym, ap, ==_iff, ltb, subst, ◌∙◌,
}
use sftp_relay.Events.{Event, Channel, buffer_size, close_if, offer, channel_of, next_event, pop_if}
use sftp_relay.Events.Trace.{one}

module _ {ℓ} {D : Type ℓ} where
  pub channel_of-map :
      (f : Channel D → Channel D)
      → ((c : Channel D) → (f c).id ≡ c.id)
      → (i : ℕ) (cs : List (Channel D)) (c : Channel D) → channel_of i cs ≡ some c
      → channel_of i (map f cs) ≡ some (f c)
  channel_of-map f same i [] c h = cc
  channel_of-map f same i (d ∷ cs) c h = elim (Bool-cases (d.id == i)) [
    | inl e ↦ rw (subst (λ n. (n == i) ≡ true) (sym (same d)) e) (ap (Option.map f) (rw e at h))
    | inr e ↦
        rw (subst (λ n. (n == i) ≡ false) (sym (same d)) e)
          (channel_of-map f same i cs c (rw e at h))
  ]

  abbrev id_or : Option (Channel D) → ℕ
  id_or none = 0
  id_or (some c) = c.id

  pub id-of-channel_of :
      (i : ℕ) (cs : List (Channel D)) (c : Channel D) → channel_of i cs ≡ some c → c.id ≡ i
  id-of-channel_of i [] c h = cc
  id-of-channel_of i (d ∷ cs) c h = elim (Bool-cases (d.id == i)) [
    | inl e ↦ sym (ap id_or (rw e at h)) ∙ (==_iff d.id i).0 e
    | inr e ↦ id-of-channel_of i cs c (rw e at h)
  ]

  -- What was taken, then what waits in the channel, then some rest, is all that was sent; the rest is
  -- empty while the channel is open.
  abbrev pub Continues : List (Event D) → Channel D → List (Event D) → Type ℓ
  Continues taken c sent =
      (rest : List (Event D)) × (taken ++ (c.queue ++ rest) ≡ sent)
      × ((c.is_open ≡ false) ⊎ (rest ≡ []))

  rest_empty : (b : Bool) (rest : List (Event D)) → (b ≡ false) ⊎ (rest ≡ []) → b ≡ true → rest ≡ []
  rest_empty b rest (inl e) h = cc
  rest_empty b rest (inr e) h = e

  shift :
      (t q r : List (Event D)) {s : List (Event D)} (e : Event D)
      → t ++ (q ++ r) ≡ s
      → t ++ (q ++ (r ++ e ∷ [])) ≡ s ++ e ∷ []
  shift t q r e h = rw (← h) (simp append_assoc)

  pub offer-Continues :
      (e : Event D) (t : List (Event D)) (c : Channel D) (s : List (Event D))
      → Continues t c s
      → Continues t (offer e c) (s ++ e ∷ [])
  offer-Continues e t c s (r, same, all) = elim (Bool-cases c.is_open) [
    | inr shut ↦ rw shut (r ++ e ∷ [], shift t c.queue r e same, inl refl)
    | inl o ↦ elim (Bool-cases (ltb (length c.queue) buffer_size)) [
      | inl room ↦
          rw (o, room)
            (
              [],
              rw append-nil (
                  shift t c.queue [] e
                    (subst (λ x. t ++ (c.queue ++ x) ≡ s) (rest_empty c.is_open r all o) same)),
              inr refl,
            )
      | inr full ↦
          rw (o, full)
            (
              e ∷ [],
              shift t c.queue [] e
                  (subst (λ x. t ++ (c.queue ++ x) ≡ s) (rest_empty c.is_open r all o) same),
              inl refl,
            )
    ]
  ]

  pub close_if-Continues :
      (i : ℕ) (t : List (Event D)) (c : Channel D) (s : List (Event D))
      → Continues t c s
      → Continues t (close_if i c) s
  close_if-Continues i t c s (r, same, all) = elim (Bool-cases (c.id == i)) [
    | inl e ↦ rw e (r, same, inl refl)
    | inr e ↦ rw e (r, same, all)
  ]

  pop_one :
      (t q r : List (Event D))
      → (t ++ one (elim q [ [] ↦ none | e ∷ es ↦ some e ]))
          ++ (elim q [ [] ↦ [] | e ∷ es ↦ es ] ++ r)
        ≡ t ++ (q ++ r)
  pop_one t [] r = simp append-nil
  pop_one t (e ∷ es) r = simp append_assoc

  pub pop-Continues :
      (i : ℕ) (t : List (Event D)) (c : Channel D) (s : List (Event D))
      → c.id ≡ i
      → Continues t c s
      → Continues (t ++ one (next_event (some c))) (pop_if i c) s
  pop-Continues i t c s e (r, same, all) =
      rw ((==_iff c.id i).1 e) (r, pop_one t c.queue r ∙ same, all)
