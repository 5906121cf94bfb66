-- ===== src/Events/Delivery.antt =====
-- What a client of the hub receives (internal/events/events.go).
use sftp_relay.Base.{
  ℕ, suc, ◌≤◌, true, false, Bool-cases, some, List, [], ◌∷◌, ◌≡◌, refl, inl, inr, arith, ◌==◌, sym,
  ap, ==_refl, ==_iff, subst, ◌∙◌,
}
use sftp_relay.Events.{
  Event, Channel, Hub, subscribe, close_if, unsubscribe, offer, coalesced, publish, channel_of,
  pop_if, receive,
}
use sftp_relay.Events.Trace.{Op, publishes, subscribes, unsubscribes, receives, Watched, step, run}
use sftp_relay.Events.Channels.{
  channel_of-map, id-of-channel_of, Continues, offer-Continues, close_if-Continues, pop-Continues,
}

new_is_other : (i n : ℕ) → i ≤ n → (suc n == i) ≡ false
new_is_other i n h = ground arith

module _ {ℓ} {D : Type ℓ} where
  -- Client `i` is known to the hub, and its channel continues what it took to all that was sent.
  pub record IsStream (i : ℕ) (w : Watched D) : Type ℓ where
    pub known : i ≤ w.hub.next_id
    pub channel : Channel D
    pub found : channel_of i w.hub.channels ≡ some channel
    pub continues : Continues w.taken channel w.sent

  publish-IsStream :
      (i : ℕ) (e : Event D) (now : ℕ) (w : Watched D)
      → IsStream i w
      → IsStream i (step i (publishes e now) w)
  unfolding step publish
  publish-IsStream i e now w h = elim (Bool-cases (coalesced e now w.hub)) [
    | inl c ↦ rw c h
    | inr c ↦ rw c (record {
      known = h.known;
      channel = offer e h.channel;
      found = channel_of-map (offer e) (λ d. ground arith) i w.hub.channels h.channel h.found;
      continues = offer-Continues e w.taken h.channel w.sent h.continues;
    })
  ]

  subscribe-IsStream : (i : ℕ) (w : Watched D) → IsStream i w → IsStream i (step i subscribes w)
  unfolding step subscribe
  subscribe-IsStream i w h = record {
    known = omega (arith, h.known);
    channel = h.channel;
    found = rw (new_is_other i w.hub.next_id h.known) h.found;
    continues = h.continues;
  }

  unsubscribe-IsStream :
      (i j : ℕ) (w : Watched D) → IsStream i w → IsStream i (step i (unsubscribes j) w)
  unfolding step unsubscribe
  unsubscribe-IsStream i j w h = record {
    known = h.known;
    channel = close_if j h.channel;
    found = channel_of-map (close_if j) (λ d. ground arith) i w.hub.channels h.channel h.found;
    continues = close_if-Continues j w.taken h.channel w.sent h.continues;
  }

  receive_own-IsStream : (i : ℕ) (w : Watched D) → IsStream i w → IsStream i (step i (receives i) w)
  unfolding step receive
  receive_own-IsStream i w h = rw (==_refl i) (record {
    known = h.known;
    channel = pop_if i h.channel;
    found = channel_of-map (pop_if i) (λ d. ground arith) i w.hub.channels h.channel h.found;
    continues = rw h.found (
        pop-Continues i w.taken h.channel w.sent
          (id-of-channel_of i w.hub.channels h.channel h.found) h.continues);
  })

  pop_other : (i j : ℕ) (c : Channel D) → c.id ≡ i → (j == i) ≡ false → pop_if j c ≡ c
  pop_other i j c e n = ground arith

  receive_other-IsStream :
      (i j : ℕ) (w : Watched D)
      → (j == i) ≡ false
      → IsStream i w
      → IsStream i (step i (receives j) w)
  unfolding step receive
  receive_other-IsStream i j w n h = rw n (record {
    known = h.known;
    channel = h.channel;
    found =
        channel_of-map (pop_if j) (λ d. ground arith) i w.hub.channels h.channel h.found
        ∙ ap some (pop_other i j h.channel (id-of-channel_of i w.hub.channels h.channel h.found) n);
    continues = h.continues;
  })

  step-IsStream : (i : ℕ) (op : Op D) (w : Watched D) → IsStream i w → IsStream i (step i op w)
  step-IsStream i (publishes e now) w h = publish-IsStream i e now w h
  step-IsStream i subscribes w h = subscribe-IsStream i w h
  step-IsStream i (unsubscribes j) w h = unsubscribe-IsStream i j w h
  step-IsStream i (receives j) w h = elim (Bool-cases (j == i)) [
    | inl e ↦
        subst (λ k. IsStream i (step i (receives k) w)) (sym ((==_iff j i).0 e))
          (receive_own-IsStream i w h)
    | inr n ↦ receive_other-IsStream i j w n h
  ]

  run-IsStream :
      (i : ℕ) (ops : List (Op D)) (w : Watched D) → IsStream i w → IsStream i (run i ops w)
  unfolding run
  run-IsStream i [] w h = h
  run-IsStream i (op ∷ ops) w h = run-IsStream i ops (step i op w) (step-IsStream i op w h)

  -- A client that has just subscribed, and has taken nothing.
  abbrev pub joined : Hub D → Watched D
  joined h = record { hub = (subscribe h).0; taken = []; sent = [] }

  -- Whatever happens after a client subscribes, by it or by others, the hub knows its channel, and
  -- what the client has taken, followed by what waits in the channel, is a prefix of all that was
  -- sent since: no event is lost, repeated or out of order before the end of the channel. While
  -- the channel is open nothing that was sent is missing.
  pub subscribe-run :
      (h : Hub D) (ops : List (Op D)) → let i = (subscribe h).1 in IsStream i (run i ops (joined h))
  unfolding subscribe
  subscribe-run h ops = run-IsStream (suc h.next_id) ops (joined h) (record {
    known = omega arith;
    channel = record { id = suc h.next_id; queue = []; is_open = true };
    found = rw (==_refl (suc h.next_id));
    continues = ([], refl, inr refl);
  })
