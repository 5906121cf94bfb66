-- ===== src/Sftp/Pool.antt =====
-- The pool of connections (internal/sftpclient/sftpclient.go). The mutex is held for a whole call, so
-- a call is one step; the map of connections is an association list.
pub mod Calls
pub mod Answers
use sftp_relay.Base.{
  ℕ, Text, List, [], ◌∷◌, map, first, keep, Bool, true, false, not, Option, none, some, ◌==◌, ltb,
  ◌+◌, if◌then◌else◌, codes, Error, external, Result, ok, err,
}
use sftp_relay.Db.Rows.{Server, Database}
use sftp_relay.Sftp.{KeyParser, Wire, Conn, dial}

pub record Pool : Type 0 where
  pub idle : ℕ
  pub conns : List (ℕ × Conn)
  pub closed : Bool

abbrev pub has_key : ℕ → ℕ × Conn → Bool
has_key id e = e.0 == id

-- delete(p.conns, id)
abbrev pub drop : ℕ → Pool → Pool
drop id p = record p { conns = keep (λ e. not (has_key id e)) p.conns }

-- p.conns[id] = c
abbrev pub put : ℕ → Conn → Pool → Pool
put id c p = record p { conns = (id, c) ∷ (drop id p).conns }

-- c.lastUsed = time.Now(), for the connection that the map holds under the id.
abbrev pub used : ℕ → ℕ → ℕ × Conn → ℕ × Conn
used id now e = if has_key id e then (e.0, record e.1 { last_used = now }) else e

abbrev pub touch : ℕ → ℕ → Pool → Pool
touch id now p = record p { conns = map (used id now) p.conns }

-- The clock, the network and the rest of the world as one call meets them. `is_broken` tests the text
-- of an error too, which an `Error` does not keep.
pub record World : Type 0 where
  pub now : ℕ
  pub keys : KeyParser
  pub wire : Wire
  pub is_broken : Error → Bool

-- `fn` is a closure: it answers, and changes the variables that it captures, `R`.
module _ {A R : Type 0} (fn : Conn → R → Result A × R) where
  abbrev pub fresh_answered :
      ℕ → ℕ → Conn → Pool → Database → Result A × R → Result A × R × Pool × Database
  fresh_answered id now c p db (ok a, r) = (ok a, r, touch id now (put id c p), db)
  fresh_answered id now c p db (err e, r) = (err e, r, put id c p, db)

  abbrev pub redialled :
      World
      → Server
      → Pool
      → Database
      → R
      → Result (Conn × Database)
      → Result A × R × Pool × Database
  redialled w s p db r (err e) = (err e, r, p, db)
  redialled w s p db r (ok (c, db')) = fresh_answered s.id w.now c p db' (fn c r)

  unfoldable pub redial : World → Server → Pool → Database → R → Result A × R × Pool × Database
  redial w s p db r = redialled w s p db r (dial w.keys s w.wire w.now db)

  abbrev pub pooled_answered :
      World → Server → Pool → Database → Result A × R → Result A × R × Pool × Database
  pooled_answered w s p db (ok a, r) = (ok a, r, touch s.id w.now p, db)
  pooled_answered w s p db (err e, r) =
      let again = redial w s (drop s.id p) db r in
      if not (w.is_broken e) then (err e, r, touch s.id w.now p, db) else again

  abbrev pub on_found :
      World → Server → Pool → Database → R → Option (ℕ × Conn) → Result A × R × Pool × Database
  on_found w s p db r none = redial w s p db r
  on_found w s p db r (some (id, c)) = pooled_answered w s p db (fn c r)

  -- Pool.do
  unfoldable pub do_on : World → Server → Pool → Database → R → Result A × R × Pool × Database
  unfolding redial
  do_on w s p db r =
      if p.closed
      then (err (external (codes "pool is closed")), r, p, db)
      else on_found w s p db r (first (has_key s.id) p.conns)

abbrev pub is_idle : ℕ → ℕ → ℕ × Conn → Bool
is_idle now idle e = ltb (e.1.last_used + idle) now

unfoldable pub evict_idle : ℕ → Pool → Pool
evict_idle now p = record p { conns = keep (λ e. not (is_idle now p.idle e)) p.conns }

unfoldable pub close : Pool → Pool
close p = if p.closed then p else record p { conns = []; closed = true }

abbrev pub new_pool : ℕ → Pool
new_pool idle = record { idle = idle; conns = []; closed = false }
