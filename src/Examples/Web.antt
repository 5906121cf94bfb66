-- ===== src/Examples/Web.antt =====
-- Requests with credentials, the way up from a directory, and an event stream (internal/api/api.go and
-- internal/api/jobs.go).
use sftp_relay.Base.{List, [], ◌∷◌, Bool, true, some, codes, ◌≡◌, refl, external, ◌⊎◌}
use sftp_relay.Base.Int.{pos}
use sftp_relay.Base.Path.{clean, path_of, pieces, enter_all}
use sftp_relay.Config.{Config}
use sftp_relay.Db.Servers.{get_server}
use sftp_relay.Jobs.Manager.{Payload, line}
use sftp_relay.Sftp.Listing.{list}
use sftp_relay.Sftp.Pool.{do_on}
use sftp_relay.Base.Sorting.{sort_by}
use sftp_relay.Sftp.{clean_path}
use sftp_relay.Events.{Event, type_log}
use sftp_relay.Events.Trace.{Op, publishes, receives, subscribes}
use sftp_relay.Api.{write_status}
use sftp_relay.Api.Access.{basic_auth}
use sftp_relay.Api.Access.Guarded.{IsConfigured, basic_auth-IsConfigured}
use sftp_relay.Api.Settings.{get_settings_handler}
use sftp_relay.Api.Browsing.{browse_server_handler, parent_path}
use sftp_relay.Api.Browsing.Parents.{Shows}
use sftp_relay.Api.Stream.{Data, Frame}
use sftp_relay.Api.Stream.Following as Stream
use sftp_relay.Examples.{database_7, busy}
use sftp_relay.Examples.Sftp.{world}
use sftp_relay.Examples.Paths.{same_text}
use sftp_relay.Examples.Listing.{season, used_pool, in_order}

abbrev open_config : Config
open_config = record {
  port = codes "8080";
  db_path = codes "/data/app.db";
  auth_user = codes "me";
  auth_pass = codes "pw";
  nas_ssh_key_path = [];
  log_level = pos 0;
}

basic_auth-IsConfigured_example :
    (IsConfigured open_config (some (codes "me", codes "pw"))
      × (basic_auth same_text open_config
            (some (codes "me", codes "pw"))
            get_settings_handler
            (busy "running")
          ≡ get_settings_handler (busy "running")))
    ⊎ ((IsConfigured open_config (some (codes "me", codes "pw")) → ⊥)
        × (basic_auth same_text open_config
              (some (codes "me", codes "pw"))
              get_settings_handler
              (busy "running")
            ≡ (busy "running", write_status 401 (external (codes "unauthorized")))))
basic_auth-IsConfigured_example =
    basic_auth-IsConfigured same_text open_config (some (codes "me", codes "pw"))
      get_settings_handler (busy "running") (λ u e. e) (λ u e. e)

season_shown :
    Shows
      (browse_server_handler same_text season world
        (some 1)
        (codes "/tv/../s/x")
        used_pool
        (database_7 "queued")).0
      (codes "/s/x")
      (codes "/s")
unfolding browse_server_handler get_server list do_on clean_path clean path_of pieces enter_all
    parent_path sort_by
season_shown = (in_order, refl)

abbrev hello : Event Payload
hello = record { type = type_log; job_id = 7; payload = line (codes "hello") }

-- An event, one that is left in the channel, and another client.
abbrev calls : List (Op Payload)
calls = publishes hello 5 ∷ receives 1 ∷ subscribes ∷ publishes hello 6 ∷ []

abbrev encodes_all : Event Data → Bool
encodes_all e = true

abbrev takes_all : List Frame → Frame → Bool
takes_all fs f = true
