-- ===== src/Examples/Sftp.antt =====
-- A first connection, and calls of a pool (internal/sftpclient/sftpclient.go).
use sftp_relay.Base.{
  ℕ, [], ◌∷◌, Text, true, none, codes, ◌≡◌, refl, external, ok, err, trim_space, trim_left,
}
use sftp_relay.Db.Rows.{Server, Database}
use sftp_relay.Db.Servers.{get_server, set_server_host_key}
use sftp_relay.Sftp.{
  KeyParser, Wire, Conn, conn_of, dial, auth_methods, after_key, accept_key, store_key,
}
use sftp_relay.Sftp.Pinning.{dial-pins_first_key}
use sftp_relay.Sftp.Pool.{World}
use sftp_relay.Examples.{seedbox, database_7}
use sftp_relay.Examples.Db.{found_server_1}

abbrev no_keys : KeyParser
no_keys = record {
  parse = λ k. err (external (codes "no key"));
  parse_with_passphrase = λ k p. err (external (codes "no key"));
}

abbrev pub quiet_wire : Wire
quiet_wire = record {
  dialled = none;
  deadline_set = none;
  exchanged = ok (codes "ssh-ed25519 AAAA\n");
  rejected = λ a. none;
  deadline_cleared = none;
  subsystem = none;
}

abbrev shown_key : Text
shown_key = codes "ssh-ed25519 AAAA"

abbrev pub first_conn : Conn
first_conn = conn_of seedbox shown_key 50

abbrev pub pinned_database : Database
pinned_database = record (database_7 "queued") {
  servers = record seedbox { host_key = shown_key } ∷ [];
}

pub first_dial :
    dial no_keys seedbox quiet_wire 50 (database_7 "queued") ≡ ok (first_conn, pinned_database)
unfolding dial auth_methods after_key accept_key store_key set_server_host_key trim_space trim_left
first_dial = refl

dial-pins_first_key_example :
    (s' : Server) × (get_server 1 pinned_database ≡ ok s')
    × ((w' : Wire) (now' : ℕ) (c' : Conn) (db'' : Database)
        → dial no_keys s' w' now' pinned_database ≡ ok (c', db'')
        → (c'.key ≡ first_conn.key) × (db'' ≡ pinned_database))
dial-pins_first_key_example =
    dial-pins_first_key no_keys seedbox quiet_wire 50 (database_7 "queued") first_conn
      pinned_database (found_server_1 "queued") refl first_dial refl

abbrev pub world : World
world = record { now = 50; keys = no_keys; wire = quiet_wire; is_broken = λ e. true }
