-- ===== src/Sftp/Listing.antt =====
-- `List`, `Size` and `Test` of the pool (internal/sftpclient/sftpclient.go). What the SFTP server of a
-- connection answers, and lower case, are parameters.
pub mod Totals
pub mod Sorted
use sftp_relay.Base.{
  ℕ, ◌-◌, ◌/◌, Text, List, [], ◌∷◌, map, length, Bool, true, false, not, ◌&&◌, ◌||◌, ◌++◌, codes,
  text_eq, if◌then◌else◌, Error, Result, ok, err,
}
use sftp_relay.Base.Int.{ℤ, pos}
use sftp_relay.Base.Files.{Info, Visit, visited, unreadable, cancelled, added_size}
use sftp_relay.Base.Sorting.{text_ltb, sort_by}
use sftp_relay.Db.Rows.{Server, Database}
use sftp_relay.Db.Servers.{get_server}
use sftp_relay.Sftp.{Conn, clean_path}
use sftp_relay.Sftp.Pool.{Pool, World, drop, do_on}
use sftp_relay.Base.Decimal.{itoa_ℕ}

pub record Entry : Type 0 where
  pub name : Text
  pub size : ℤ
  pub mode : Text
  pub mod_time : ℕ
  pub is_dir : Bool

pub record Remote : Type 0 where
  pub read_dir : Text → Result (List Info)
  pub stat : Text → Result Info
  pub walk : Text → List Visit

abbrev pub entry_of : Info → Entry
entry_of fi = record {
  name = fi.name;
  size = fi.size;
  mode = fi.mode;
  mod_time = fi.mod_time;
  is_dir = fi.is_dir;
}

pub record TestResult : Type 0 where
  pub is_ok : Bool
  pub entries : ℕ
  pub elapsed_ms : ℕ
  pub host_key : Text
  pub host_key_new : Bool
  pub description : Text

-- The walk of a directory: the total so far, and the error that ends it.
unfoldable pub walked : List Visit → ℤ → Result (Unit {0}) × ℤ
walked [] total = (ok tt, total)
walked (visited fi ∷ vs) total = walked vs (added_size fi total)
walked (unreadable e ∷ vs) total = (err e, total)
walked (cancelled e ∷ vs) total = (err e, total)

-- The results of `Size`, which its closure assigns.
pub record Sized : Type 0 where
  pub total : ℤ
  pub is_dir : Bool

abbrev pub as_dir : Result (Unit {0}) × ℤ → Result (Unit {0}) × Sized
as_dir (r, total) = (r, record { total = total; is_dir = true })

abbrev pub as_file : Info → Sized
as_file fi = record { total = fi.size; is_dir = false }

abbrev pub nothing : Sized
nothing = record { total = pos 0; is_dir = false }

module _ (lower : Text → Text) (remote : Conn → Remote) where
  -- Directories first, then by name.
  abbrev pub entry_below : Entry → Entry → Bool
  entry_below a b =
      if (a.is_dir && not b.is_dir) || (b.is_dir && not a.is_dir)
      then a.is_dir
      else text_ltb (lower a.name) (lower b.name)

  unfoldable pub sort_entries : List Entry → List Entry
  sort_entries es = sort_by entry_below es

  abbrev pub read : Result (List Info) → List Entry → Result (Unit {0}) × List Entry
  read (err e) out = (err e, out)
  read (ok infos) out = (ok tt, map entry_of infos)

  -- The closure of `List` assigns the entries.
  abbrev pub list_on : Text → Conn → List Entry → Result (Unit {0}) × List Entry
  list_on dir c out = read ((remote c).read_dir dir) out

  abbrev pub listed :
      Result (Unit {0}) × List Entry × Pool × Database → Result (List Entry) × Pool × Database
  listed (err e, out, p, db) = (err e, p, db)
  listed (ok u, out, p, db) = (ok (sort_entries out), p, db)

  unfoldable pub list :
      World → Server → Text → Pool → Database → Result (List Entry) × Pool × Database
  unfolding do_on sort_entries clean_path
  list w s dir p db = listed (do_on (list_on (clean_path dir)) w s p db [])

  -- The closure of `Size` adds to the total, which a second attempt finds as the first left it.
  abbrev pub size_of : Text → Conn → Result Info → Sized → Result (Unit {0}) × Sized
  size_of path c (err e) r = (err e, r)
  size_of path c (ok fi) r =
      let there = as_dir (walked ((remote c).walk path) r.total) in
      if not fi.is_dir then (ok tt, as_file fi) else there

  abbrev pub size_on : Text → Conn → Sized → Result (Unit {0}) × Sized
  size_on path c r = size_of path c ((remote c).stat path) r

  abbrev pub sized : Result (Unit {0}) × Sized × Pool × Database → Result Sized × Pool × Database
  sized (err e, r, p, db) = (err e, p, db)
  sized (ok u, r, p, db) = (ok r, p, db)

  unfoldable pub size : World → Server → Text → Pool → Database → Result Sized × Pool × Database
  unfolding do_on walked clean_path
  size w s path p db = sized (do_on (size_on (clean_path path)) w s p db nothing)

  abbrev pub stored_key : Result Server → Text
  stored_key (err e) = []
  stored_key (ok s) = s.host_key

  -- The elapsed time is what a second reading of the clock, `later`, gives.
  abbrev pub tested :
      ℕ
      → World
      → Server
      → Result (List Entry) × Pool × Database
      → Result TestResult × Pool × Database
  tested later w s (err e, p, db) = (err e, p, db)
  tested later w s (ok entries, p, db) = (
    ok (record {
      is_ok = true;
      entries = length entries;
      elapsed_ms = (later - w.now) / 1000000;
      host_key = stored_key (get_server s.id db);
      host_key_new = text_eq s.host_key [];
      description =
          codes "listed "
          ++ (itoa_ℕ (length entries)
              ++ (codes " entries under " ++ clean_path s.default_remote_path));
    }),
    p,
    db,
  )

  -- A pooled connection is dropped first.
  unfoldable pub test : ℕ → World → Server → Pool → Database → Result TestResult × Pool × Database
  unfolding list get_server clean_path itoa_ℕ
  test later w s p db =
      tested later w s (list w s (clean_path s.default_remote_path) (drop s.id p) db)
