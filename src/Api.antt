-- ===== src/Api.antt =====
-- internal/api: the handlers behind the router, after the request is decoded. A handler turns the
-- state and the decoded request into a new state and a reply; a body or an id that does not decode
-- is `none`, and an id that is negative names no row.
pub mod Servers
pub mod Jobs
pub mod Settings
pub mod Browsing
pub mod Access
pub mod Stream
use sftp_relay.Base.{
  ℕ, String, Text, Option, List, Bool, codes, Error, not_found, unknown_status, illegal_move,
  not_finished, outside_roots, resolves_outside, no_roots, empty_path, null_byte, not_absolute,
  unusable_path, unresolvable, no_host_key, no_sshpass, not_configured, host_key_changed,
  deadline_exceeded, external,
}
use sftp_relay.Base.Int.{ℤ}
use sftp_relay.Jobs.View.{View as JobView}
use sftp_relay.Sftp.Listing.{Entry, TestResult}
use sftp_relay.Nas.Destinations.{Listing}

-- The wire shape of a server.
pub record ServerView : Type 0 where
  pub id : ℕ
  pub name : Text
  pub host : Text
  pub port : ℤ
  pub username : Text
  pub auth_type : String
  pub host_key : Text
  pub default_remote_path : Text
  pub has_password : Bool
  pub has_private_key : Bool

pub data Body : Type 0 where
  no_content : Body
  problem : Error → Body
  server_body : ServerView → Body
  job_body : JobView → Body
  jobs_body : List JobView → Body
  page_body : List JobView → ℕ → Body
  lines_body : List Text → Body
  settings_body : List (String × Text) → Body
  servers_body : List ServerView → Body
  entries_body : Text → Text → List Entry → Body
  tested_body : TestResult → Body
  failed_test_body : Error → Body
  listing_body : Listing → Body
  path_body : Text → Body
  status_body : Text → Body

pub record Reply : Type 0 where
  pub code : ℕ
  pub body : Body

-- The `switch` of `writeErr`, which looks through the errors that another wraps.
unfoldable pub status_of : Error → ℕ
status_of (not_found id) = 404
status_of (outside_roots p) = 400
status_of (resolves_outside p q) = 400
status_of no_roots = 400
status_of (unknown_status s) = 409
status_of (illegal_move s t) = 409
status_of (not_finished id s) = 409
status_of no_host_key = 400
status_of no_sshpass = 400
status_of not_configured = 503
status_of (host_key_changed h) = 502
status_of deadline_exceeded = 504
status_of (unusable_path p e) = status_of e
status_of (unresolvable p e) = status_of e
status_of empty_path = 500
status_of null_byte = 500
status_of (not_absolute p) = 500
status_of (external t) = 500

abbrev pub write_status : ℕ → Error → Reply
write_status code e = record { code = code; body = problem e }

unfoldable pub write_err : Error → Reply
unfolding status_of
write_err e = write_status (status_of e) e

abbrev pub bad_request : String → Reply
bad_request text = write_status 400 (external (codes text))
