-- ===== src/Api/Servers/Updating.antt =====
-- What an update leaves of a server (internal/api/api.go).
use sftp_relay.Base.{
  ℕ, Bool, true, false, not, ◌||◌, ◌&&◌, none, some, List, [], ◌∷◌, map, first, ◌==◌, ==_iff,
  ==_refl, if◌then◌else◌, ◌≡◌, refl, sym, ap, ◌∙◌, Bool-cases, inl, inr, arith, str_eq, text_eq,
  Error, ok, subst,
}
use sftp_relay.Base.Int.{pos, ltb_ℤ}
use sftp_relay.Db.Rows.{Server, Database, has_server}
use sftp_relay.Db.Servers.{
  or_not_found, get_server, is_present, replace_server, update_server, auth_type_allowed,
}
use sftp_relay.Db.Queue.Rows.{found_server}
use sftp_relay.Jobs.Manager.{Manager}
use sftp_relay.Api.Servers.{ServerInput, validate, apply, update_server_handler}

fourth_test :
    (a b c p k r : Bool) (u v w x y : Error)
    → (if a
        then some u
        else if b
        then some v
        else if c
        then some w
        else if not p && not k
        then some x
        else if r
        then some y
        else none)
      ≡ none
    → (p || k) ≡ true
fourth_test a b c p k r u v w x y h = ground (arith, h)

-- A request that passes the tests never meets the CHECK of the table.
validate-auth_type_allowed :
    (in_ : ServerInput) → validate in_ ≡ none → auth_type_allowed in_.auth_type ≡ true
unfolding validate
validate-auth_type_allowed in_ h =
    fourth_test (text_eq in_.name []) (text_eq in_.host []) (text_eq in_.username [])
      (str_eq in_.auth_type "password") (str_eq in_.auth_type "key")
      (ltb_ℤ in_.port (pos 0) || ltb_ℤ (pos 65535) in_.port) _ _ _ _ _ h

first-replace_other :
    (s : Server) (i : ℕ) (ss : List Server)
    → (i == s.id) ≡ false
    → first (has_server i) (map (replace_server s) ss) ≡ first (has_server i) ss
first-replace_other s i [] n = refl
first-replace_other s i (t ∷ ss) n = elim (Bool-cases (t.id == s.id)) [
  | inl e ↦ rw e (ground (arith, n, e, first-replace_other s i ss n))
  | inr e ↦ rw e (ground (arith, first-replace_other s i ss n))
]

first-replace_same :
    (s : Server) (ss : List Server)
    → is_present (first (has_server s.id) ss) ≡ true
    → first (has_server s.id) (map (replace_server s) ss) ≡ some s
first-replace_same s [] h = cc
first-replace_same s (t ∷ ss) h = elim (Bool-cases (t.id == s.id)) [
  | inl e ↦ rw (e, ==_refl s.id) refl
  | inr e ↦ rw (e, e) (first-replace_same s ss (rw e at h))
]

present_of_get_server :
    (id : ℕ) (db : Database) (s : Server)
    → get_server id db ≡ ok s
    → first (has_server id) db.servers ≡ some s
unfolding get_server
present_of_get_server id db s h = found_server id (first (has_server id) db.servers) s h

id-of-first : (i : ℕ) (ss : List Server) (s : Server) → first (has_server i) ss ≡ some s → s.id ≡ i
id-of-first i [] s h = cc
id-of-first i (t ∷ ss) s h = elim (Bool-cases (t.id == i)) [
  | inl e ↦ ground (arith, h, e)
  | inr e ↦ id-of-first i ss s (rw e at h)
]

-- An update of a server that is there replaces its row and no other.
pub update_server-get_server :
    (s : Server) (db : Database) (old : Server)
    → get_server s.id db ≡ ok old
    → auth_type_allowed s.auth_type ≡ true
    → (after : Database) × (update_server s db ≡ ok after)
      × ((i : ℕ) → get_server i after ≡ (if i == s.id then ok s else get_server i db))
unfolding update_server get_server
update_server-get_server s db old found allowed =
    let there = present_of_get_server s.id db old found in
    let present = ap is_present there in
    (
      record db { servers = map (replace_server s) db.servers },
      rw (there, allowed) refl,
      λ i. elim (Bool-cases (i == s.id)) [
        | inl e ↦ rw e (
            ap (λ k. or_not_found k (first (has_server k) (map (replace_server s) db.servers)))
              ((==_iff i s.id).0 e)
            ∙ ap (or_not_found s.id) (first-replace_same s db.servers present))
        | inr e ↦ rw e (ap (or_not_found i) (first-replace_other s i db.servers e))
      ],
    )

abbrev Updated : ℕ → ServerInput → Manager → Server → Type 0
Updated id in_ m existing =
    let (m', reply) = update_server_handler (some id) (some in_) m in
    (reply.code ≡ 200)
    × ((i : ℕ)
        → get_server i m'.db ≡ (if i == id then ok (apply in_ existing) else get_server i m.db))

own_id :
    (in_ : ServerInput) (m : Manager) (existing : Server)
    → get_server existing.id m.db ≡ ok existing
    → validate in_ ≡ none
    → Updated existing.id in_ m existing
unfolding update_server_handler apply
own_id in_ m existing found valid =
    let u =
      update_server-get_server (apply in_ existing) m.db existing found
        (validate-auth_type_allowed in_ valid) in
    rw (valid, found, u.1) (refl, u.2)

-- An update of a server that exists, with an input that passes the tests, answers 200 and replaces the
-- server's row by what `apply` makes of it, so that a blank credential keeps the stored one; every
-- other server reads as before.
pub update_server_handler-get_server :
    (id : ℕ) (in_ : ServerInput) (m : Manager) (existing : Server)
    → get_server id m.db ≡ ok existing
    → validate in_ ≡ none
    → let (m', reply) = update_server_handler (some id) (some in_) m in
      (reply.code ≡ 200)
      × ((i : ℕ)
          → get_server i m'.db ≡ (if i == id then ok (apply in_ existing) else get_server i m.db))
update_server_handler-get_server id in_ m existing found valid =
    let same =
      id-of-first id m.db.servers existing (present_of_get_server id m.db existing found) in
    subst (λ k. Updated k in_ m existing) same
      (own_id in_ m existing (subst (λ k. get_server k m.db ≡ ok existing) (sym same) found) valid)
