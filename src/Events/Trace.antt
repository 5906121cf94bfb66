-- ===== src/Events/Trace.antt =====
-- A hub in use (internal/events/events.go): the calls of all its clients and publishers, in the order
-- in which they take the mutex, watched from one client.
use sftp_relay.Base.{ℕ, Option, none, some, List, [], ◌∷◌, ◌++◌, ◌==◌, if◌then◌else◌}
use sftp_relay.Events.{Event, Hub, subscribe, unsubscribe, coalesced, publish, receive}

pub data Op {ℓ} (D : Type ℓ) : Type ℓ where
  publishes : Event D → ℕ → Op D
  subscribes : Op D
  unsubscribes receives : ℕ → Op D

-- The hub, with what one client has taken and what was sent to all since the client came.
pub record Watched {ℓ} (D : Type ℓ) : Type ℓ where
  pub hub : Hub D
  pub taken : List (Event D)
  pub sent : List (Event D)

module _ {ℓ} {D : Type ℓ} where
  abbrev pub one : Option (Event D) → List (Event D)
  one none = []
  one (some e) = e ∷ []

  unfoldable pub step : ℕ → Op D → Watched D → Watched D
  step i (publishes e now) w = record w {
    hub = publish e now w.hub;
    sent = if coalesced e now w.hub then w.sent else w.sent ++ e ∷ [];
  }
  step i subscribes w = record w { hub = (subscribe w.hub).0 }
  step i (unsubscribes j) w = record w { hub = unsubscribe j w.hub }
  step i (receives j) w =
      let (h, e) = receive j w.hub in
      record w { hub = h; taken = if j == i then w.taken ++ one e else w.taken }

  unfoldable pub run : ℕ → List (Op D) → Watched D → Watched D
  run i [] w = w
  run i (op ∷ ops) w = run i ops (step i op w)
