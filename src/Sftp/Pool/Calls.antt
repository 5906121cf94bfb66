-- ===== src/Sftp/Pool/Calls.antt =====
-- What every sequence of calls keeps of the pool (internal/sftpclient/sftpclient.go).
use sftp_relay.Base.{ℕ, Text, List, [], ◌∷◌, true, false, ◌≡◌, All, Result}
use sftp_relay.Db.Rows.{Server, Database}
use sftp_relay.Sftp.{Conn}
use sftp_relay.Sftp.Pool.{Pool, World, has_key, drop, do_on, evict_idle, close}

-- A call of the pool; `reconnect` is the part of `Test` before its listing.
pub data Call : Type 0 where
  use_server : World → Server → (Conn → Text → Result Text × Text) → Call
  evict : ℕ → Call
  reconnect : ℕ → Call
  close_pool : Call

unfoldable pub step : Call → Pool × Database → Pool × Database
step (use_server w s fn) (p, db) = let r = do_on fn w s p db [] in (r.2, r.3)
step (evict now) (p, db) = (evict_idle now p, db)
step (reconnect id) (p, db) = (drop id p, db)
step close_pool (p, db) = (close p, db)

unfoldable pub run : List Call → Pool × Database → Pool × Database
run [] x = x
run (c ∷ cs) x = run cs (step c x)

-- No server has two connections.
abbrev pub Distinct : List (ℕ × Conn) → Type 0
Distinct [] = Unit
Distinct (e ∷ es) = All (λ d. has_key e.0 d ≡ false) es × Distinct es

abbrev pub IsSound : Pool → Type 0
IsSound p = Distinct p.conns × (p.closed ≡ true → p.conns ≡ [])

abbrev IsOpen : Pool → Type 0
IsOpen p = (p.closed ≡ false) × Distinct p.conns
