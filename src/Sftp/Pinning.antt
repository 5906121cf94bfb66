-- ===== src/Sftp/Pinning.antt =====
-- The host key of a server, from the first connection on (internal/sftpclient/sftpclient.go).
use sftp_relay.Base.{
  ℕ, Text, List, [], ◌∷◌, map, first, true, false, Option, none, some, ◌==◌, ◌≡◌, refl, sym, ap,
  ◌∙◌, subst, Bool-cases, inl, inr, text_eq, text_eq_iff, trim_space, trim_space_idempotent,
  bind_ok, Error, Result, ok, err, ◌>>=◌,
}
use sftp_relay.Db.Rows.{Server, Database, has_server}
use sftp_relay.Db.Servers.{get_server, or_not_found, set_server_host_key, with_host_key}
use sftp_relay.Db.Queue.Rows.{found_server}
use sftp_relay.Sftp.{
  KeyParser, AuthMethod, Wire, Conn, conn_of, attempt, accept_key, store_key, after_key, dial,
  auth_methods,
}

attempt_ok {ℓ} :
    {A : Type ℓ} (o : Option Error) (r : Result A) (a : A)
    → attempt o r ≡ ok a
    → (o ≡ none) × (r ≡ ok a)
attempt_ok none r a h = (refl, h)
attempt_ok (some e) r a h = cc

three_ok {ℓ} :
    {A : Type ℓ} (o p q : Option Error) (r : Result A) (a : A)
    → attempt o (attempt p (attempt q r)) ≡ ok a
    → r ≡ ok a
three_ok o p q r a h =
    let (_, h₁) = attempt_ok o (attempt p (attempt q r)) a h in
    let (_, h₂) = attempt_ok p (attempt q r) a h₁ in (attempt_ok q r a h₂).1

abbrev key_of : Result (Conn × Database) → Text
key_of (ok (c, db)) = c.key
key_of (err e) = []

abbrev rows_of : Result (Conn × Database) → Result Database
rows_of (ok (c, db)) = ok db
rows_of (err e) = err e

after_key_ok :
    (s : Server) (auth : AuthMethod) (w : Wire) (observed : Text) (now : ℕ) (db : Database)
    (c : Conn) (db' : Database)
    → after_key s auth w observed now db ≡ ok (c, db')
    → (accept_key s observed ≡ none) × (store_key s observed db ≡ ok db') × (c.key ≡ observed)
unfolding after_key
after_key_ok s auth w observed now db c db' h =
    let end : Result (Conn × Database) =
      store_key s observed db >>= λ db₁. ok (conn_of s observed now, db₁) in
    let past =
      attempt_ok (accept_key s observed)
        (attempt (w.rejected auth) (attempt w.deadline_cleared (attempt w.subsystem end))) (c, db')
        h in
    let last = three_ok (w.rejected auth) w.deadline_cleared w.subsystem end (c, db') past.1 in
    let (db₁, recorded, same) =
      bind_ok (store_key s observed db) (λ db₁. ok (conn_of s observed now, db₁)) (c, db') last in
    (past.0, recorded ∙ ap rows_of same, sym (ap key_of same))

dial_ok :
    (keys : KeyParser) (s : Server) (w : Wire) (now : ℕ) (db : Database) (c : Conn) (db' : Database)
    → dial keys s w now db ≡ ok (c, db')
    → (accept_key s c.key ≡ none)
      × (store_key s c.key db ≡ ok db')
      × (k : Text) × (c.key ≡ trim_space k)
unfolding dial
dial_ok keys s w now db c db' h =
    let run : AuthMethod → Text → Result (Conn × Database) =
      λ auth k. after_key s auth w (trim_space k) now db in
    let (auth, _, h₁) =
      bind_ok (auth_methods keys s)
        (λ auth. attempt w.dialled (attempt w.deadline_set (w.exchanged >>= run auth))) (c, db')
        h in
    let h₂ = three_ok none w.dialled w.deadline_set (w.exchanged >>= run auth) (c, db') h₁ in
    let (k, _, h₃) = bind_ok w.exchanged (run auth) (c, db') h₂ in
    let (accepted, recorded, same) = after_key_ok s auth w (trim_space k) now db c db' h₃ in
    (rw same accepted, rw same recorded, k, same)

abbrev keyed : Text → Option Server → Option Server
keyed k none = none
keyed k (some s) = some (record s { host_key = k })

first-with_host_key :
    (i : ℕ) (k : Text) (ss : List Server) (s : Server)
    → first (has_server i) ss ≡ some s
    → first (has_server i) (map (with_host_key i k) ss) ≡ some (record s { host_key = k })
first-with_host_key i k [] s h = cc
first-with_host_key i k (t ∷ ss) s h = elim (Bool-cases (t.id == i)) [
  | inl e ↦ rw (e, e) (ap (keyed k) (rw e at h))
  | inr e ↦ rw (e, e) (first-with_host_key i k ss s (rw e at h))
]

-- The key that was recorded is the key that the row then has.
set_server_host_key-get_server :
    (s : Server) (k : Text) (db db' : Database)
    → get_server s.id db ≡ ok s
    → set_server_host_key s.id k db ≡ ok db'
    → get_server s.id db' ≡ ok (record s { host_key = k })
unfolding get_server set_server_host_key
set_server_host_key-get_server s k db db' found h =
    let there = found_server s.id (first (has_server s.id) db.servers) s found in
    let after : record db { servers = map (with_host_key s.id k) db.servers } ≡ db' =
      cc (rw there at h) in
    subst
      (λ d. or_not_found s.id (first (has_server s.id) d.servers) ≡ ok (record s { host_key = k }))
      after (ap (or_not_found s.id) (first-with_host_key s.id k db.servers s there))

accepted_same :
    (s : Server) (observed : Text)
    → text_eq s.host_key [] ≡ false
    → accept_key s observed ≡ none
    → observed ≡ trim_space s.host_key
unfolding accept_key
accepted_same s observed stored h = elim (Bool-cases (text_eq observed (trim_space s.host_key))) [
  | inl e ↦ (text_eq_iff observed (trim_space s.host_key)).0 e
  | inr e ↦ cc (rw (stored, e) at h)
]

store_key_stored :
    (s : Server) (observed : Text) (db db' : Database)
    → text_eq s.host_key [] ≡ false
    → store_key s observed db ≡ ok db'
    → db' ≡ db
unfolding store_key
store_key_stored s observed db db' stored h = cc (rw stored at h)

store_key_first :
    (s : Server) (observed : Text) (db db' : Database)
    → text_eq s.host_key [] ≡ true
    → text_eq observed [] ≡ false
    → store_key s observed db ≡ ok db'
    → set_server_host_key s.id observed db ≡ ok db'
unfolding store_key
store_key_first s observed db db' blank shown h = rw (blank, shown) at h

-- From a server without a stored key, a connection that succeeds under a key that is not blank
-- stores that key in the server's row; every later connection that is dialled from that row and
-- succeeds proves the same key, whatever the network does, and writes nothing.
pub dial-pins_first_key :
    (keys : KeyParser) (s : Server) (w : Wire) (now : ℕ) (db : Database) (c : Conn) (db' : Database)
    → get_server s.id db ≡ ok s
    → text_eq s.host_key [] ≡ true
    → dial keys s w now db ≡ ok (c, db')
    → text_eq c.key [] ≡ false
    → (s' : Server) × (get_server s.id db' ≡ ok s')
      × ((w' : Wire) (now' : ℕ) (c' : Conn) (db'' : Database)
          → dial keys s' w' now' db' ≡ ok (c', db'')
          → (c'.key ≡ c.key) × (db'' ≡ db'))
dial-pins_first_key keys s w now db c db' found blank h shown =
    let (_, recorded, k, trimmed) = dial_ok keys s w now db c db' h in
    let s' : Server = record s { host_key = c.key } in
    let row =
      set_server_host_key-get_server s c.key db db' found
        (store_key_first s c.key db db' blank shown recorded) in
    let again : trim_space c.key ≡ c.key =
      ap trim_space trimmed ∙ trim_space_idempotent k ∙ sym trimmed in
    (
      s',
      row,
      λ w' now' c' db'' h'.
          let (accepted, kept, _, _) = dial_ok keys s' w' now' db' c' db'' h' in
          (
            accepted_same s' c'.key shown accepted ∙ again,
            store_key_stored s' c'.key db' db'' shown kept,
          ),
    )
