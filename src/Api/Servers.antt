-- ===== src/Api/Servers.antt =====
-- The servers' handlers of internal/api/api.go.
pub mod Updating
use sftp_relay.Base.{
  ℕ, String, Text, Bool, not, ◌||◌, ◌&&◌, Option, none, some, [], text_eq, str_eq, if◌then◌else◌,
  codes, Error, external, Result, ok, err,
}
use sftp_relay.Base.Int.{ℤ, pos, ltb_ℤ}
use sftp_relay.Db.Rows.{Server, Database}
use sftp_relay.Db.Servers.{get_server, create_server, update_server, delete_server}
use sftp_relay.Jobs.Manager.{Manager}
use sftp_relay.Jobs.Manager.Run.{is_zero}
use sftp_relay.Api.{
  ServerView, Body, server_body, no_content, Reply, write_err, write_status, bad_request,
}

unfoldable pub view_of : Server → ServerView
view_of s = record {
  id = s.id;
  name = s.name;
  host = s.host;
  port = s.port;
  username = s.username;
  auth_type = s.auth_type;
  host_key = s.host_key;
  default_remote_path = s.default_remote_path;
  has_password = not (text_eq s.password []);
  has_private_key = not (text_eq s.private_key []);
}

pub record ServerInput : Type 0 where
  pub name : Text
  pub host : Text
  pub port : ℤ
  pub username : Text
  pub auth_type : String
  pub password : Text
  pub private_key : Text
  pub passphrase : Text
  pub host_key : Text
  pub default_remote_path : Text

abbrev pub refusal : String → Option Error
refusal text = some (external (codes text))

unfoldable pub validate : ServerInput → Option Error
validate in_ =
    if text_eq in_.name []
    then refusal "name is required"
    else if text_eq in_.host []
    then refusal "host is required"
    else if text_eq in_.username []
    then refusal "username is required"
    else if not (str_eq in_.auth_type "password") && not (str_eq in_.auth_type "key")
    then refusal "auth_type must be password or key"
    else if ltb_ℤ in_.port (pos 0) || ltb_ℤ (pos 65535) in_.port
    then refusal "port is out of range"
    else none

-- A blank credential keeps what is stored.
abbrev pub keep_blank : Text → Text → Text
keep_blank new old = if text_eq new [] then old else new

unfoldable pub apply : ServerInput → Server → Server
apply in_ s = record s {
  name = in_.name;
  host = in_.host;
  username = in_.username;
  auth_type = in_.auth_type;
  host_key = in_.host_key;
  default_remote_path = in_.default_remote_path;
  port = if is_zero in_.port then pos 22 else in_.port;
  password = keep_blank in_.password s.password;
  private_key = keep_blank in_.private_key s.private_key;
  passphrase = keep_blank in_.passphrase s.passphrase;
}

-- db.Server{}
abbrev pub zero_server : Server
zero_server = record {
  id = 0;
  name = [];
  host = [];
  port = pos 0;
  username = [];
  auth_type = "";
  password = [];
  private_key = [];
  passphrase = [];
  host_key = [];
  default_remote_path = [];
}

abbrev pub reply_created : Server → Manager → Result (ℕ × Database) → Manager × Reply
reply_created s m (err e) = (m, write_err e)
reply_created s m (ok (id, db)) = (
  record m { db = db },
  record { code = 201; body = server_body (view_of (record s { id = id })) },
)

abbrev pub create_valid : ServerInput → Manager → Option Error → Manager × Reply
create_valid in_ m (some e) = (m, write_status 400 e)
create_valid in_ m none = let s = apply in_ zero_server in reply_created s m (create_server s m.db)

unfoldable pub create_server_handler : Option ServerInput → Manager → Manager × Reply
unfolding validate apply view_of write_err
create_server_handler none m = (m, bad_request "invalid JSON body")
create_server_handler (some in_) m = create_valid in_ m (validate in_)

abbrev pub reply_updated : Server → Manager → Result Database → Manager × Reply
reply_updated s m (err e) = (m, write_err e)
reply_updated s m (ok db) =
    (record m { db = db }, record { code = 200; body = server_body (view_of s) })

abbrev pub update_existing : ServerInput → Manager → Result Server → Manager × Reply
update_existing in_ m (err e) = (m, write_err e)
update_existing in_ m (ok existing) =
    let updated = apply in_ existing in reply_updated updated m (update_server updated m.db)

abbrev pub update_valid : ℕ → ServerInput → Manager → Option Error → Manager × Reply
update_valid id in_ m (some e) = (m, write_status 400 e)
update_valid id in_ m none = update_existing in_ m (get_server id m.db)

abbrev pub update_decoded : ℕ → Option ServerInput → Manager → Manager × Reply
update_decoded id none m = (m, bad_request "invalid JSON body")
update_decoded id (some in_) m = update_valid id in_ m (validate in_)

unfoldable pub update_server_handler : Option ℕ → Option ServerInput → Manager → Manager × Reply
unfolding validate apply view_of write_err
update_server_handler none in_ m = (m, bad_request "bad id")
update_server_handler (some id) in_ m = update_decoded id in_ m

abbrev pub reply_deleted : Manager → Result Database → Manager × Reply
reply_deleted m (err e) = (m, write_err e)
reply_deleted m (ok db) = (record m { db = db }, record { code = 204; body = no_content })

unfoldable pub delete_server_handler : Option ℕ → Manager → Manager × Reply
unfolding write_err
delete_server_handler none m = (m, bad_request "bad id")
delete_server_handler (some id) m = reply_deleted m (delete_server id m.db)
