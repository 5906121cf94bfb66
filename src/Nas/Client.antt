-- ===== src/Nas/Client.antt =====
-- The session with the NAS (internal/nas/nas.go): settings, connecting with a pinned host key, one
-- retry, and closing. A call runs alone; what the network and the SSH library answer is an argument.
pub mod Pinning
pub mod Retrying
use sftp_relay.Base.{
  ℕ, String, Text, List, [], ◌∷◌, Bool, true, false, not, ◌&&◌, ◌||◌, Option, none, some, lookup,
  text_eq, trim_space, atoi, ltb, if◌then◌else◌, codes, Error, external, not_configured,
  host_key_changed, Result, ok, err, ◌>>=◌,
}
use sftp_relay.Base.Int.{ℤ, pos, negsuc}
use sftp_relay.Db.Rows.{Database}
use sftp_relay.Db.Settings.{settings, set_settings}

pub record NasConfig : Type 0 where
  pub host : Text
  pub user : Text
  pub host_key : Text
  pub port : ℕ

-- The clients of one connection, known by the host and the key that it proved.
pub record Session : Type 0 where
  pub host : Text
  pub user : Text
  pub key : Text

pub record Client : Type 0 where
  pub closed : Bool
  pub session : Option Session
  pub prefixes : List (Text × Text)
  pub db : Database

-- s[key], which is empty for a missing key.
abbrev pub or_empty : Option Text → Text
or_empty none = []
or_empty (some v) = v

abbrev pub setting : String → Database → Text
setting key db = trim_space (or_empty (lookup key (settings db)))

abbrev pub positive_or_22 : Option ℤ → ℕ
positive_or_22 none = 22
positive_or_22 (some (pos n)) = if ltb 0 n then n else 22
positive_or_22 (some (negsuc n)) = 22

unfoldable pub nas_config : Database → Result NasConfig
unfolding settings
nas_config db =
    let host = setting "nas_host" db in
    let user = setting "nas_user" db in
    if text_eq host [] || text_eq user []
    then err not_configured
    else ok (record {
      host = host;
      user = user;
      host_key = setting "nas_host_key" db;
      port = positive_or_22 (atoi (setting "nas_port" db));
    })

-- What one attempt to connect meets, in the order of the calls: `none` where a call succeeds.
pub record Wire : Type 0 where
  pub key_read : Result Text
  pub key_parsed : Text → Option Error
  pub dialled : Option Error
  pub deadline_set : Option Error
  pub exchanged : Result Text
  pub rejected : Option Error
  pub deadline_cleared : Option Error
  pub subsystem : Option Error

-- An early return on an error.
abbrev pub attempt {ℓ} : {A : Type ℓ} → Option Error → Result A → Result A
attempt none r = r
attempt (some e) r = err e

-- The host key callback.
unfoldable pub accept_key : NasConfig → Text → Option Error
accept_key cfg observed =
    if text_eq cfg.host_key []
    then none
    else if not (text_eq observed cfg.host_key)
    then some (host_key_changed cfg.host)
    else none

-- The key of a first connection goes into the settings.
unfoldable pub pin_key : NasConfig → Text → Database → Database
pin_key cfg observed db =
    if text_eq cfg.host_key [] && not (text_eq observed [])
    then set_settings (("nas_host_key", observed) ∷ []) db
    else db

abbrev pub opened : NasConfig → Text → Session
opened cfg observed = record { host = cfg.host; user = cfg.user; key = observed }

unfoldable pub handshake : NasConfig → Wire → Database → Text → Result (Session × Database)
handshake cfg w db observed = attempt (accept_key cfg observed) (
    attempt w.rejected (
      attempt w.deadline_cleared
        (attempt w.subsystem (ok (opened cfg observed, pin_key cfg observed db)))))

unfoldable pub dial : Wire → Database → Result (Session × Database)
dial w db = nas_config db >>= λ cfg. w.key_read >>= λ key. attempt (w.key_parsed key) (
    attempt w.dialled
      (attempt w.deadline_set (w.exchanged >>= λ k. handshake cfg w db (trim_space k))))

abbrev pub dialled_to : Client → Result (Session × Database) → Result Session × Client
dialled_to c (err e) = (err e, c)
dialled_to c (ok (s, db)) = (ok s, record c { session = some s; db = db })

abbrev pub live_or : Wire → Client → Option Session → Result Session × Client
live_or w c none = dialled_to c (dial w c.db)
live_or w c (some s) = (ok s, c)

unfoldable pub connect : Wire → Client → Result Session × Client
connect w c =
    if c.closed then (err (external (codes "client is closed")), c) else live_or w c c.session

unfoldable pub disconnect : Client → Client
disconnect c = record c { session = none }

-- Close stops the keepalive loop too, after which nothing connects.
unfoldable pub close : Client → Client
unfolding disconnect
close c = if c.closed then c else disconnect (record c { closed = true })

-- A failed keepalive drops the connection.
unfoldable pub keepalive : Option Error → Client → Client
unfolding disconnect
keepalive none c = c
keepalive (some e) c = disconnect c

-- `fn` runs on a session and changes the rest of the world, `R`. `is_broken` reads the text of an
-- error too, which an `Error` does not keep.
module _ {A R : Type 0} (is_broken : Error → Bool) (fn : Session → R → Result A × R) where
  abbrev pub run_on : Result Session × Client → R → Result A × Client × R
  run_on (err e, c) r = (err e, c, r)
  run_on (ok s, c) r = let (a, r') = fn s r in (a, c, r')

  -- The second attempt is the last one.
  abbrev pub again : Wire → Result A × Client × R → Result A × Client × R
  again w (ok a, c, r) = (ok a, c, r)
  again w (err e, c, r) =
      let second = run_on (connect w (disconnect c)) r in
      if is_broken e then second else (err e, c, r)

  abbrev pub first_then : Wire → Result Session × Client → R → Result A × Client × R
  first_then w (err e, c) r = (err e, c, r)
  first_then w (ok s, c) r = again w (run_on (ok s, c) r)

  -- Client.do
  unfoldable pub with_session : Wire → Wire → Client → R → Result A × Client × R
  unfolding connect disconnect
  with_session w w' c r = first_then w' (connect w c) r
