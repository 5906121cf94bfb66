-- ===== src/Nas/Destinations.antt =====
-- Destinations on the NAS: `SplitRoots`, `Roots`, `Validate`, `Browse` and `Mkdir` of
-- internal/nas/nas.go. Unicode normalisation, lower case and the answers of the SFTP server are
-- parameters; the directories that the server was asked to make are kept, newest first.
pub mod Choosing
use sftp_relay.Base.{
  ℕ, String, Text, List, [], ◌∷◌, ◌++◌, map, keep, Bool, true, false, not, ◌||◌, Option, none, some,
  lookup, text_eq, trim_space, ◌*◌, ◌%◌, ◌^◌, ◌==◌, if◌then◌else◌, codes, Error, external, no_roots,
  Result, ok, err,
}
use sftp_relay.Base.Path.{dir}
use sftp_relay.Base.Splitting.{fields_where, is_nonempty, join}
use sftp_relay.Base.Sorting.{text_ltb, sort_by}
use sftp_relay.Db.Rows.{Database}
use sftp_relay.Db.Settings.{settings}
use sftp_relay.Nas.Path.{Resolver, is_empty, normalise, check_path}
use sftp_relay.Nas.Client.{Session, Client, Wire, or_empty, with_session}

abbrev pub ends_root : ℕ → Bool
ends_root c = c == b',' || c == 10

unfoldable pub split_roots : Text → List Text
split_roots v = keep is_nonempty (map trim_space (fields_where ends_root v))

unfoldable pub roots : Database → List Text
unfolding split_roots settings
roots db = split_roots (or_empty (lookup "allowed_dest_roots" (settings db)))

pub record Info : Type 0 where
  pub name : Text
  pub is_dir : Bool

pub record Space : Type 0 where
  pub available : ℕ
  pub blocks : ℕ
  pub block_size : ℕ

-- What the SFTP server of a session answers.
pub record Remote : Type 0 where
  pub real_path : Resolver
  pub read_dir : Text → Result (List Info)
  pub make_all : Text → Option Error
  pub stat_vfs : Text → Option Space

pub record Entry : Type 0 where
  pub name : Text
  pub path : Text
  pub is_dir : Bool

pub record Listing : Type 0 where
  pub path : Text
  pub parent : Text
  pub entries : List Entry
  pub free_bytes : ℕ
  pub total_bytes : ℕ

-- The check always comes to a decision: its walk has enough steps.
abbrev pub decided : Option (Result Text) → Result Text
decided none = err (external [])
decided (some r) = r

abbrev pub entry_in : Text → Info → Entry
entry_in dir i = record { name = i.name; path = join dir i.name; is_dir = true }

abbrev pub root_entry : Text → Entry
root_entry clean = record { name = clean; path = clean; is_dir = true }

-- A root that does not normalise is not offered.
abbrev pub with_entry : Result Text → List Entry → List Entry
with_entry (ok clean) es = root_entry clean ∷ es
with_entry (err e) es = es

abbrev pub is_that : Text → Result Text → Bool
is_that dir (ok clean) = text_eq clean dir
is_that dir (err e) = false

abbrev pub bytes_of : ℕ → ℕ → ℕ
bytes_of n size = (n * size) % 2 ^ 64

abbrev pub with_space : Option Space → Listing → Listing
with_space none l = l
with_space (some s) l = record l {
  free_bytes = bytes_of s.available s.block_size;
  total_bytes = bytes_of s.blocks s.block_size;
}

-- The directories that the server was asked to make.
abbrev pub Made : Type 0
Made = List Text

module _ (nfc lower : Text → Text) (is_broken : Error → Bool) (remote : Session → Remote) where
  -- The part of `Validate` on the session.
  abbrev pub check_on : Text → List Text → Session → Made → Result Text × Made
  check_on clean rs s made = (decided (check_path nfc clean rs (some (remote s).real_path)), made)

  -- A path outside the roots is refused before there is a connection.
  abbrev pub checked :
      List Text → Wire → Wire → Client → Made → Result Text → Result Text × Client × Made
  checked rs w w' c made (err e) = (err e, c, made)
  checked rs w w' c made (ok clean) = with_session is_broken (check_on clean rs) w w' c made

  unfoldable pub validate : Text → Wire → Wire → Client → Made → Result Text × Client × Made
  unfolding roots
  validate p w w' c made =
      checked (roots c.db) w w' c made (decided (check_path nfc p (roots c.db) none))

  abbrev pub answer : Text → Option Error → Result Text
  answer dir none = ok dir
  answer dir (some e) = err e

  abbrev pub make_on : Text → Session → Made → Result Text × Made
  make_on dir s made = (answer dir ((remote s).make_all dir), dir ∷ made)

  abbrev pub made_on : Wire → Wire → Result Text × Client × Made → Result Text × Client × Made
  made_on w w' (err e, c, made) = (err e, c, made)
  made_on w w' (ok dir, c, made) = with_session is_broken (make_on dir) w w' c made

  unfoldable pub mkdir :
      Text → Wire → Wire → Wire → Wire → Client → Made → Result Text × Client × Made
  unfolding validate
  mkdir p w₁ w₂ w₃ w₄ c made = made_on w₃ w₄ (validate p w₁ w₂ c made)

  unfoldable pub root_entries : List Text → List Entry
  root_entries [] = []
  root_entries (r ∷ rs) = with_entry (normalise nfc r) (root_entries rs)

  -- At a root the picker goes back to the list of roots.
  unfoldable pub parent_of : List Text → Text → Text
  parent_of [] d = dir d
  parent_of (r ∷ rs) d =
      let rest = parent_of rs d in if is_that d (normalise nfc r) then [] else rest

  abbrev pub listed : Text → Option Space → Result (List Info) → Result Listing
  listed d space (err e) = err e
  listed d space (ok infos) = ok (
      with_space space (record {
        path = d;
        parent = [];
        entries = map (entry_in d) (keep (λ i. i.is_dir) infos);
        free_bytes = 0;
        total_bytes = 0;
      }))

  abbrev pub list_on : Text → Session → Made → Result Listing × Made
  list_on d s made = (listed d ((remote s).stat_vfs d) ((remote s).read_dir d), made)

  abbrev pub name_below : Entry → Entry → Bool
  name_below a b = text_ltb (lower a.name) (lower b.name)

  abbrev pub presented : List Text → Listing → Listing
  presented rs l = record l { parent = parent_of rs l.path; entries = sort_by name_below l.entries }

  abbrev pub presented_result :
      List Text → Result Listing × Client × Made → Result Listing × Client × Made
  presented_result rs (err e, c, made) = (err e, c, made)
  presented_result rs (ok l, c, made) = (ok (presented rs l), c, made)

  abbrev pub browsed :
      List Text → Wire → Wire → Result Text × Client × Made → Result Listing × Client × Made
  browsed rs w w' (err e, c, made) = (err e, c, made)
  browsed rs w w' (ok d, c, made) =
      presented_result rs (with_session is_broken (list_on d) w w' c made)

  abbrev pub root_listing : List Text → Listing
  root_listing rs = record {
    path = [];
    parent = [];
    entries = root_entries rs;
    free_bytes = 0;
    total_bytes = 0;
  }

  unfoldable pub browse :
      Text → Wire → Wire → Wire → Wire → Client → Made → Result Listing × Client × Made
  unfolding validate roots root_entries parent_of
  browse p w₁ w₂ w₃ w₄ c made =
      let rs = roots c.db in
      if is_empty rs
      then (err no_roots, c, made)
      else if text_eq (trim_space p) []
      then (ok (root_listing rs), c, made)
      else browsed rs w₃ w₄ (validate p w₁ w₂ c made)
