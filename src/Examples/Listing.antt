-- ===== src/Examples/Listing.antt =====
-- A directory of a server, a connection that breaks in the middle of it, and a file that lftp is
-- writing (internal/sftpclient/sftpclient.go and internal/nas/lftp.go).
use sftp_relay.Base.{
  ℕ, Text, List, [], ◌∷◌, true, false, codes, text_eq, if◌then◌else◌, ◌≡◌, refl, external, Result,
  ok, err,
}
use sftp_relay.Base.Int.{pos, add64}
use sftp_relay.Base.Files.{Info, visited, unreadable}
use sftp_relay.Base.Path.{clean, path_of, pieces, enter_all, dir, dir_part}
use sftp_relay.Base.Splitting.{join, base}
use sftp_relay.Sftp.{Conn}
use sftp_relay.Sftp.Pool.{Pool}
use sftp_relay.Sftp.Listing.{Entry, Remote, entry_of, size}
use sftp_relay.Sftp.Listing.Totals.{size_sums_both_attempts}
use sftp_relay.Nas.Client.{Session, connect, disconnect, with_session}
use sftp_relay.Nas.Sizes.{Files, walked}
use sftp_relay.Nas.Sizes as Nas
use sftp_relay.Nas.Sizes.Counting.{Stands, Holds, size_counts_once}
use sftp_relay.Examples.{seedbox, database_7}
use sftp_relay.Examples.Sftp.{world, first_conn, pinned_database, first_dial}
use sftp_relay.Examples.Nas.{ready, first_wire, always}
use sftp_relay.Examples.Paths.{same_text}

abbrev file_of : Text → ℕ → Info
file_of name n = record {
  name = name;
  size = pos n;
  mode = codes "-rw";
  mod_time = 9;
  is_dir = false;
}

abbrev folder_of : Text → Info
folder_of name = record {
  name = name;
  size = pos 4096;
  mode = codes "drw";
  mod_time = 9;
  is_dir = true;
}

-- A connection with the key `old` breaks after one file; any other does not.
abbrev pub season : Conn → Remote
season c = record {
  read_dir = λ d. ok (file_of (codes "b") 5 ∷ folder_of (codes "x") ∷ file_of (codes "a") 7 ∷ []);
  stat = λ p. ok (folder_of (codes "s"));
  walk = λ p.
      (if text_eq c.key (codes "old")
        then visited (file_of (codes "b") 5) ∷ unreadable (external (codes "EOF")) ∷ []
        else visited (file_of (codes "b") 5) ∷ visited (file_of (codes "a") 7) ∷ []);
}

abbrev old_conn : Conn
old_conn = record first_conn { key = codes "old" }

abbrev pub used_pool : Pool
used_pool = record { idle = 5; conns = (1, old_conn) ∷ []; closed = false }

size_sums_both_attempts_example :
    (size same_text season world seedbox (codes "/s") used_pool (database_7 "queued")).0
    ≡ ok (record { total = pos 17; is_dir = true })
unfolding add64
size_sums_both_attempts_example =
    size_sums_both_attempts same_text season world seedbox (codes "/s") used_pool
      (database_7 "queued") pinned_database 1 old_conn first_conn (external (codes "EOF")) refl refl
      (folder_of (codes "s"), refl, refl) refl refl first_dial (folder_of (codes "s"), refl, refl)
      refl

abbrev pub in_order : List Entry
in_order =
    entry_of (folder_of (codes "x"))
    ∷ entry_of (file_of (codes "a") 7)
    ∷ entry_of (file_of (codes "b") 5)
    ∷ []

-- Only the unfinished file is there.
abbrev partial : Session → Files
partial s = record {
  stat = λ p.
      (if text_eq p (codes "/m/.in.film")
        then ok (file_of (codes ".in.film") 300)
        else err (external (codes "not found")));
  walk = λ p. [];
}

partial_sized :
    Nas.size always always partial (codes "/m/film") first_wire first_wire ready
    ≡ (ok (pos 300), ready)
unfolding Nas.size with_session connect disconnect join dir dir_part clean path_of pieces enter_all
    base
partial_sized = refl

size_counts_once_example :
    (s : Session) × (r : Result Info) × Stands always always partial (codes "/m/film") s r
    × Holds always always partial (codes "/m/film") s (pos 300) r
size_counts_once_example =
    size_counts_once always always partial (codes "/m/film") first_wire first_wire ready (pos 300)
      ready partial_sized
