-- ===== src/Api/Settings.antt =====
-- The settings' handlers of internal/api/api.go.
use sftp_relay.Base.{
  String, Text, Bool, true, false, not, ◌||◌, ◌&&◌, Option, none, some, List, [], ◌∷◌, text_eq,
  contains, trim_space, atoi, if◌then◌else◌,
}
use sftp_relay.Base.Int.{ℤ, pos, negsuc}
use sftp_relay.Db.Settings.{settings, set_settings}
use sftp_relay.Jobs.Manager.{Manager}
use sftp_relay.Api.{settings_body, Reply, bad_request}

abbrev pub numeric_settings : List String
numeric_settings =
    "concurrency" ∷ "segments" ∷ "parallel" ∷ "history_retention_days" ∷ "nas_port" ∷ []

abbrev pub is_count : Option ℤ → Bool
is_count none = false
is_count (some (pos n)) = true
is_count (some (negsuc n)) = false

-- The test on which a pair is refused.
abbrev pub is_malformed : String → Text → Bool
is_malformed k v =
    contains k numeric_settings
    && not (text_eq (trim_space v) [])
    && not (is_count (atoi (trim_space v)))

unfoldable pub any_malformed : List (String × Text) → Bool
any_malformed [] = false
any_malformed ((k, v) ∷ kvs) = is_malformed k v || any_malformed kvs

unfoldable pub get_settings_handler : Manager → Manager × Reply
get_settings_handler m = (m, record { code = 200; body = settings_body (settings m.db) })

unfoldable pub put_settings_handler : Option (List (String × Text)) → Manager → Manager × Reply
unfolding any_malformed get_settings_handler
put_settings_handler none m = (m, bad_request "invalid JSON body")
put_settings_handler (some kvs) m =
    if any_malformed kvs
    then (m, bad_request "a setting must be a non-negative number")
    else get_settings_handler (record m { db = set_settings kvs m.db })
