-- ===== src/Db/Servers.antt =====
-- The servers table of internal/db/repo.go. Driver failures are not modelled: a statement fails on a
-- constraint or on a missing row.
use sftp_relay.Base.{
  ℕ, suc, String, Text, Option, none, some, List, ◌∷◌, map, Bool, not, ◌||◌, first, keep, str_eq,
  ◌==◌, if◌then◌else◌, not_found, Result, ok, err,
}
use sftp_relay.Base.Sorting.{text_ltb, sort_by}
use sftp_relay.Db.Rows.{Server, Database, has_server, owned, constraint}
pub use sftp_relay.Db.Rows.{is_present}

-- CHECK (auth_type IN ('password', 'key'))
abbrev pub auth_type_allowed : String → Bool
auth_type_allowed t = str_eq t "password" || str_eq t "key"

-- What a lookup by id returns.
abbrev pub or_not_found {ℓ} : {A : Type ℓ} → ℕ → Option A → Result A
or_not_found id none = err (not_found id)
or_not_found id (some a) = ok a

unfoldable pub get_server : ℕ → Database → Result Server
get_server id db = or_not_found id (first (has_server id) db.servers)

abbrev pub name_below : Server → Server → Bool
name_below a b = text_ltb a.name b.name

-- ORDER BY name
unfoldable pub list_servers : Database → List Server
list_servers db = sort_by name_below db.servers

unfoldable pub create_server : Server → Database → Result (ℕ × Database)
create_server s db =
    if auth_type_allowed s.auth_type
    then (let id = suc db.last_server in
        ok (id, record db { servers = record s { id = id } ∷ db.servers; last_server = id }))
    else err constraint

abbrev pub replace_server : Server → Server → Server
replace_server s old = if old.id == s.id then s else old

unfoldable pub update_server : Server → Database → Result Database
update_server s db =
    if is_present (first (has_server s.id) db.servers)
    then (if auth_type_allowed s.auth_type
        then ok (record db { servers = map (replace_server s) db.servers })
        else err constraint)
    else err (not_found s.id)

-- The delete cascades to the server's jobs, and from them to their log lines.
unfoldable pub delete_server : ℕ → Database → Result Database
delete_server id db =
    if is_present (first (has_server id) db.servers)
    then (let jobs = keep (λ j. not (j.server_id == id)) db.jobs in
        ok (record db {
          servers = keep (λ s. not (s.id == id)) db.servers;
          jobs = jobs;
          log = keep (owned jobs) db.log;
        }))
    else err (not_found id)

abbrev pub with_host_key : ℕ → Text → Server → Server
with_host_key id key s = if s.id == id then record s { host_key = key } else s

unfoldable pub set_server_host_key : ℕ → Text → Database → Result Database
set_server_host_key id key db =
    if is_present (first (has_server id) db.servers)
    then ok (record db { servers = map (with_host_key id key) db.servers })
    else err (not_found id)
