-- ===== src/Events/Buffers.antt =====
-- The buffers of the hub's channels (internal/events/events.go).
use sftp_relay.Base.{
  ℕ, ◌≤◌, Bool-cases, List, [], ◌∷◌, arith, inl, inr, map, length, All, length-append,
}
use sftp_relay.Events.{
  Event, Channel, buffer_size, subscribe, close_if, unsubscribe, offer, coalesced, publish, pop_if,
  receive,
}
use sftp_relay.Events.Trace.{Op, publishes, subscribes, unsubscribes, receives, Watched, step, run}

module _ {ℓ} {D : Type ℓ} where
  abbrev pub IsBounded : Channel D → Type 0
  IsBounded c = length c.queue ≤ buffer_size

  offer-IsBounded : (e : Event D) (c : Channel D) → IsBounded c → IsBounded (offer e c)
  offer-IsBounded e c h = ground (arith, length-append c.queue (e ∷ []))

  close_if-IsBounded : (i : ℕ) (c : Channel D) → IsBounded c → IsBounded (close_if i c)
  close_if-IsBounded i c h = ground arith

  pop_if-IsBounded : (i : ℕ) (c : Channel D) → IsBounded c → IsBounded (pop_if i c)
  pop_if-IsBounded i c h = ground arith

  All-map :
      (f : Channel D → Channel D)
      → ((c : Channel D) → IsBounded c → IsBounded (f c))
      → (cs : List (Channel D)) → All IsBounded cs
      → All IsBounded (map f cs)
  All-map f keeps [] h = tt
  All-map f keeps (c ∷ cs) (h, hs) = (keeps c h, All-map f keeps cs hs)

  step-IsBounded :
      (i : ℕ) (op : Op D) (w : Watched D)
      → All IsBounded w.hub.channels
      → All IsBounded (step i op w).hub.channels
  unfolding step publish subscribe unsubscribe receive
  step-IsBounded i (publishes e now) w h = elim (Bool-cases (coalesced e now w.hub)) [
    | inl c ↦ rw c h
    | inr c ↦ rw c (All-map (offer e) (offer-IsBounded e) w.hub.channels h)
  ]
  step-IsBounded i subscribes w h = (omega arith, h)
  step-IsBounded i (unsubscribes j) w h =
      All-map (close_if j) (close_if-IsBounded j) w.hub.channels h
  step-IsBounded i (receives j) w h = All-map (pop_if j) (pop_if-IsBounded j) w.hub.channels h

  -- No channel ever holds more events than its buffer, whatever the calls.
  pub run-IsBounded :
      (i : ℕ) (ops : List (Op D)) (w : Watched D)
      → All IsBounded w.hub.channels
      → All IsBounded (run i ops w).hub.channels
  unfolding run
  run-IsBounded i [] w h = h
  run-IsBounded i (op ∷ ops) w h = run-IsBounded i ops (step i op w) (step-IsBounded i op w h)
