-- ===== src/Examples/Requests.antt =====
-- Requests to the small relay (internal/api).
use sftp_relay.Base.{
  ◌<◌, Text, true, none, List, [], ◌∷◌, keep, length, ◌≡◌, refl, codes, arith, Result, ok,
}
use sftp_relay.Base.Int.{pos}
use sftp_relay.Db.Queue.{joined, inserted, on_page}
use sftp_relay.Db.Queue.Lookup.{named}
use sftp_relay.Jobs.View.{View, view_of}
use sftp_relay.Api.Servers.{ServerInput, validate}
use sftp_relay.Api.Jobs.{JobsInput, queued_job}
use sftp_relay.Api.Jobs.Paging.{pages, pages-IsSound}
use sftp_relay.Examples.{seedbox, database_7}
use sftp_relay.Examples.Db.{IsSound-7}

abbrev changes : ServerInput
changes = record {
  name = codes "seedbox";
  host = codes "new.example";
  port = pos 0;
  username = codes "me";
  auth_type = "password";
  password = [];
  private_key = [];
  passphrase = [];
  host_key = [];
  default_remote_path = codes "/srv";
}

changes_are_valid : validate changes ≡ none
unfolding validate
changes_are_valid = refl

two_rows : length (keep (on_page "queued" 0) (joined (seedbox ∷ []) (database_7 "queued").jobs)) < 9
unfolding joined
two_rows = omega arith

pages-IsSound_example :
    pages 9 "queued" 1 0 (database_7 "queued")
    ≡ keep (on_page "queued" 0) (joined (seedbox ∷ []) (database_7 "queued").jobs)
pages-IsSound_example =
    pages-IsSound "queued" 0 (database_7 "queued") (IsSound-7 "queued") 9 two_rows

abbrev anywhere : Text → Result Text
anywhere t = ok t

abbrev wish : JobsInput
wish = record {
  server_id = 1;
  dest_path = codes "/m";
  items = record { path = codes "a"; is_dir = true } ∷ [];
}

abbrev wished : List View
wished =
    view_of (named (codes "seedbox") (inserted 8 1 (queued_job 1 (codes "/a") (codes "/m") true)))
    ∷ []
