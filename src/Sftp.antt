-- ===== src/Sftp.antt =====
-- Dialling an SFTP server (internal/sftpclient/sftpclient.go): the credentials, the check of the host
-- key, and its record on first use. What the network and the SSH library answer is an argument.
pub mod Pinning
pub mod Pool
pub mod Listing
use sftp_relay.Base.{
  ℕ, String, Text, [], ◌∷◌, has_prefix, Bool, not, ◌&&◌, Option, none, some, text_eq, str_eq,
  trim_space, if◌then◌else◌, codes, Error, external, host_key_changed, Result, ok, err, ◌>>=◌,
}
use sftp_relay.Base.Int.{ℤ}
use sftp_relay.Base.Path.{root, slash, clean}
use sftp_relay.Db.Rows.{Server, Database}
use sftp_relay.Db.Servers.{set_server_host_key}

-- sftpclient.CleanPath
unfoldable pub clean_path : Text → Text
unfolding clean
clean_path p = if text_eq p [] then root else clean (if has_prefix p root then p else slash ∷ p)

-- ssh.ParsePrivateKey, and the form with a passphrase. A signer is known by its public key.
pub record KeyParser : Type 0 where
  pub parse : Text → Result Text
  pub parse_with_passphrase : Text → Text → Result Text

pub data AuthMethod : Type 0 where
  password_of : Text → AuthMethod
  public_key_of : Text → AuthMethod

unfoldable pub auth_methods : KeyParser → Server → Result AuthMethod
auth_methods keys s =
    if str_eq s.auth_type "password"
    then ok (password_of s.password)
    else if str_eq s.auth_type "key"
    then ((if not (text_eq s.passphrase [])
          then keys.parse_with_passphrase s.private_key s.passphrase
          else keys.parse s.private_key)
        >>= λ signer. ok (public_key_of signer))
    else err (external (codes "unknown auth_type"))

-- What one attempt meets, in the order of the calls: `none` where a call succeeds. The key exchange
-- gives the marshalled key of the host; `rejected` is what ends the handshake after it, for which
-- the server may look at the offered credentials.
pub record Wire : Type 0 where
  pub dialled : Option Error
  pub deadline_set : Option Error
  pub exchanged : Result Text
  pub rejected : AuthMethod → Option Error
  pub deadline_cleared : Option Error
  pub subsystem : Option Error

-- The two clients of a connection, known by the host that they talk to and the key that it proved.
pub record Conn : Type 0 where
  pub host : Text
  pub port : ℤ
  pub key : Text
  pub last_used : ℕ

abbrev pub conn_of : Server → Text → ℕ → Conn
conn_of s observed now = record { host = s.host; port = s.port; key = observed; last_used = now }

-- An early return on an error.
abbrev pub attempt {ℓ} : {A : Type ℓ} → Option Error → Result A → Result A
attempt none r = r
attempt (some e) r = err e

-- The host key callback.
unfoldable pub accept_key : Server → Text → Option Error
accept_key s observed =
    if text_eq s.host_key []
    then none
    else if not (text_eq observed (trim_space s.host_key))
    then some (host_key_changed s.host)
    else none

unfoldable pub store_key : Server → Text → Database → Result Database
store_key s observed db =
    if text_eq s.host_key [] && not (text_eq observed [])
    then set_server_host_key s.id observed db
    else ok db

unfoldable pub after_key :
    Server → AuthMethod → Wire → Text → ℕ → Database → Result (Conn × Database)
after_key s auth w observed now db = attempt (accept_key s observed) (
    attempt (w.rejected auth) (
      attempt w.deadline_cleared (
        attempt w.subsystem (store_key s observed db >>= λ db'. ok (conn_of s observed now, db')))))

unfoldable pub dial : KeyParser → Server → Wire → ℕ → Database → Result (Conn × Database)
dial keys s w now db = auth_methods keys s >>= λ auth.
    attempt w.dialled
      (attempt w.deadline_set (w.exchanged >>= λ key. after_key s auth w (trim_space key) now db))
