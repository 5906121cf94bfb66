-- ===== src/Api/Browsing.antt =====
-- The handlers of internal/api/api.go that list servers, test one, and browse a server or the NAS.
-- What the machines answer are the parameters of the pool and of the NAS client.
pub mod Parents
use sftp_relay.Base.{
  ℕ, Text, List, [], ◌++◌, map, Bool, true, false, Option, none, some, text_eq, if◌then◌else◌,
  codes, Error, Result, ok, err,
}
use sftp_relay.Base.Path.{root}
use sftp_relay.Db.Rows.{Server, Database}
use sftp_relay.Db.Servers.{get_server, list_servers}
use sftp_relay.Jobs.Manager.{Manager}
use sftp_relay.Nas.Client.{Session, Client, Wire}
use sftp_relay.Nas.Destinations.{Listing, Made, browse, mkdir}
use sftp_relay.Nas.Destinations as Nas
use sftp_relay.Sftp.{Conn, clean_path}
use sftp_relay.Sftp.Pool.{Pool, World}
use sftp_relay.Sftp.Listing.{Entry, Remote, TestResult, list, test}
use sftp_relay.Api.{
  Reply, servers_body, entries_body, tested_body, failed_test_body, listing_body, path_body,
  status_body, write_err, bad_request,
}
use sftp_relay.Api.Servers.{view_of}

unfoldable pub list_servers_handler : Manager → Manager × Reply
unfolding list_servers view_of
list_servers_handler m =
    (m, record { code = 200; body = servers_body (map view_of (list_servers m.db)) })

abbrev pub health_reply : Option Error → Reply
health_reply none = record { code = 200; body = status_body (codes "ok") }
health_reply (some e) = record { code = 503; body = status_body (codes "db unavailable") }

-- The answer of the database to a ping is an argument.
unfoldable pub health_handler : Option Error → Manager → Manager × Reply
health_handler ping m = (m, health_reply ping)

module _ (lower : Text → Text) (remote : Conn → Remote) where
  -- A failed test is a reply like another.
  abbrev pub test_reply : Result TestResult × Pool × Database → Reply × Pool × Database
  test_reply (err e, p, db) = (record { code = 200; body = failed_test_body e }, p, db)
  test_reply (ok r, p, db) = (record { code = 200; body = tested_body r }, p, db)

  abbrev pub test_found : ℕ → World → Pool → Database → Result Server → Reply × Pool × Database
  test_found later w p db (err e) = (write_err e, p, db)
  test_found later w p db (ok s) = test_reply (test lower remote later w s p db)

  unfoldable pub test_server_handler :
      ℕ → World → Option ℕ → Pool → Database → Reply × Pool × Database
  unfolding get_server test write_err
  test_server_handler later w none p db = (bad_request "bad id", p, db)
  test_server_handler later w (some id) p db = test_found later w p db (get_server id db)

  -- Where `..` leads, which is nowhere at the root.
  unfoldable pub parent_path : Text → Text
  unfolding clean_path
  parent_path dir = if text_eq dir root then [] else clean_path (dir ++ codes "/..")

  abbrev pub entries_reply : Text → Result (List Entry) × Pool × Database → Reply × Pool × Database
  entries_reply dir (err e, p, db) = (write_err e, p, db)
  entries_reply dir (ok es, p, db) =
      (record { code = 200; body = entries_body dir (parent_path dir) es }, p, db)

  abbrev pub wanted : Text → Server → Text
  wanted path s = clean_path (if text_eq path [] then s.default_remote_path else path)

  abbrev pub browse_found : World → Text → Pool → Database → Result Server → Reply × Pool × Database
  browse_found w path p db (err e) = (write_err e, p, db)
  browse_found w path p db (ok s) =
      entries_reply (wanted path s) (list lower remote w s (wanted path s) p db)

  unfoldable pub browse_server_handler :
      World → Option ℕ → Text → Pool → Database → Reply × Pool × Database
  unfolding get_server list write_err parent_path clean_path
  browse_server_handler w none path p db = (bad_request "bad id", p, db)
  browse_server_handler w (some id) path p db = browse_found w path p db (get_server id db)

module _ (nfc lower : Text → Text) (is_broken : Error → Bool) (remote : Session → Nas.Remote) where
  abbrev pub listing_reply : Result Listing × Client × Made → Reply × Client × Made
  listing_reply (err e, c, made) = (write_err e, c, made)
  listing_reply (ok l, c, made) = (record { code = 200; body = listing_body l }, c, made)

  unfoldable pub browse_nas_handler :
      Text → Wire → Wire → Wire → Wire → Client → Made → Reply × Client × Made
  unfolding browse write_err
  browse_nas_handler path w₁ w₂ w₃ w₄ c made =
      listing_reply (browse nfc lower is_broken remote path w₁ w₂ w₃ w₄ c made)

  abbrev pub created_reply : Result Text × Client × Made → Reply × Client × Made
  created_reply (err e, c, made) = (write_err e, c, made)
  created_reply (ok dir, c, made) = (record { code = 201; body = path_body dir }, c, made)

  unfoldable pub mkdir_nas_handler :
      Option Text → Wire → Wire → Wire → Wire → Client → Made → Reply × Client × Made
  unfolding mkdir write_err
  mkdir_nas_handler none w₁ w₂ w₃ w₄ c made = (bad_request "invalid JSON body", c, made)
  mkdir_nas_handler (some path) w₁ w₂ w₃ w₄ c made =
      created_reply (mkdir nfc lower is_broken remote path w₁ w₂ w₃ w₄ c made)
