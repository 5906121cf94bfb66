-- ===== src/Examples/Nas.antt =====
-- A NAS with one share, a first connection to it, and a transfer (internal/nas/nas.go and
-- internal/nas/lftp.go).
use sftp_relay.Base.{
  Text, List, [], ◌∷◌, ◌++◌, Bool, true, false, none, some, codes, ◌≡◌, refl, Error, ok,
  ok_injective, text_eq, trim_space, trim_left, All, subst,
}
use sftp_relay.Base.Int.{pos}
use sftp_relay.Base.Path.{clean, path_of, pieces, enter_all, trim_slash, dir, dir_part}
use sftp_relay.Base.Path.Names.{IsName}
use sftp_relay.Base.Splitting.{join, cut, split_where, drop_prefix}
use sftp_relay.Base.Sorting.{sort_by}
use sftp_relay.Db.Rows.{Database}
use sftp_relay.Db.Settings.{settings, set_settings}
use sftp_relay.Nas.Path.{contained, check_path, walk_up}
use sftp_relay.Nas.Path.Checking.{IsInside}
use sftp_relay.Nas.Client.{
  Session, Client, Wire, setting, nas_config, dial, handshake, accept_key, pin_key, connect,
  disconnect, with_session,
}
use sftp_relay.Nas.Client.Pinning.{IsIdle, connect-pins_first_key}
use sftp_relay.Nas.Destinations.{
  Info, Remote, Listing, split_roots, roots, validate, browse, parent_of,
}
use sftp_relay.Nas.Destinations.Choosing.{HasNames, browse-IsInside}
use sftp_relay.Nas.Shell.{
  Exec, Issued, run, shell_path, share_of, prefix_of, volume_lines, volume_prefixes, tools,
}
use sftp_relay.Nas.Shell.Shares.{shell_path-prefix}
use sftp_relay.Nas.Transfer.{Outside, Wires, transfer}
use sftp_relay.Nas.Transfer.Uploading.{Went, transfer_uploaded}
use sftp_relay.Nas.Output.{exit_status, outcome}
use sftp_relay.Nas.Upload.{write_workspace, write_files, write_file}
use sftp_relay.Nas.Workspace.{Tools, render, credentials, transfer_line, workspace_dir}
use sftp_relay.Examples.{database_7}
use sftp_relay.Examples.Paths.{same_text, follow}
use sftp_relay.Examples.Lftp.{no_passphrases, one_film, all_right}

abbrev configured : Database
configured = record (database_7 "queued") {
  settings =
      ("nas_host", codes "nas")
      ∷ ("nas_user", codes "relay")
      ∷ ("lftp_path", codes "/opt/bin/lftp")
      ∷ ("sshpass_path", codes "/opt/bin/sshpass")
      ∷ ("allowed_dest_roots", codes "/m, relative")
      ∷ [];
}

abbrev pub first_wire : Wire
first_wire = record {
  key_read = ok (codes "key");
  key_parsed = λ k. none;
  dialled = none;
  deadline_set = none;
  exchanged = ok (codes "ssh-ed25519 BBBB\n");
  rejected = none;
  deadline_cleared = none;
  subsystem = none;
}

abbrev nas_key : Text
nas_key = codes "ssh-ed25519 BBBB"

abbrev pub nas_session : Session
nas_session = record { host = codes "nas"; user = codes "relay"; key = nas_key }

abbrev unconnected : Client
unconnected = record { closed = false; session = none; prefixes = []; db = configured }

abbrev connected : Client
connected = record unconnected {
  session = some nas_session;
  db = set_settings (("nas_host_key", nas_key) ∷ []) configured;
}

no_key_yet : setting "nas_host_key" unconnected.db ≡ []
unfolding settings trim_space trim_left
no_key_yet = refl

first_connect : connect first_wire unconnected ≡ (ok nas_session, connected)
unfolding connect dial handshake accept_key pin_key nas_config settings trim_space trim_left
first_connect = refl

connect-pins_first_key_example :
    (setting "nas_host_key" connected.db ≡ nas_key)
    × ((w₁ : Wire) (c₁ : Client) (s₁ : Session) (c₂ : Client)
        → IsIdle c₁
        → setting "nas_host_key" c₁.db ≡ nas_key
        → connect w₁ c₁ ≡ (ok s₁, c₂)
        → (s₁.key ≡ nas_key) × (c₂.db ≡ c₁.db))
connect-pins_first_key_example =
    connect-pins_first_key first_wire unconnected nas_session connected (refl, refl) no_key_yet
      first_connect refl

abbrev two_infos : List Info
two_infos =
    record { name = codes "tv"; is_dir = true }
    ∷ record { name = codes "a.txt"; is_dir = false }
    ∷ []

abbrev one_share : Session → Remote
one_share s = record {
  real_path = follow;
  read_dir = λ d. ok two_infos;
  make_all = λ d. none;
  stat_vfs = λ d. some (record { available = 3; blocks = 5; block_size = 4096 });
}

abbrev pub ready : Client
ready = record unconnected { session = some nas_session }

abbrev pub always : Error → Bool
always e = true

HasNames-one_share : HasNames one_share
HasNames-one_share s d infos e = subst (All (λ i. IsName i.name)) (ok_injective two_infos infos e) (
  record { not_skipped = refl; not_back = refl; no_slash = (refl, (refl, tt)) },
  (
    record {
      not_skipped = refl;
      not_back = refl;
      no_slash = (refl, (refl, (refl, (refl, (refl, tt)))));
    },
    tt,
  ),
)

abbrev listing : Listing
listing = record {
  path = codes "/m";
  parent = [];
  entries = record { name = codes "tv"; path = codes "/m/tv"; is_dir = true } ∷ [];
  free_bytes = 12288;
  total_bytes = 20480;
}

share_browsed :
    browse same_text same_text always one_share
      (codes "/m")
      first_wire
      first_wire
      first_wire
      first_wire
      ready
      []
    ≡ (ok listing, ready, [])
unfolding browse validate roots split_roots settings check_path trim_space trim_left clean path_of
    pieces enter_all contained trim_slash walk_up dir dir_part with_session connect disconnect
    parent_of sort_by join split_where
share_browsed = refl

browse-IsInside_example : All (λ e. IsInside same_text (roots ready.db) e.path) listing.entries
browse-IsInside_example =
    browse-IsInside same_text same_text always one_share HasNames-one_share (codes "/m") first_wire
      first_wire first_wire first_wire ready [] listing ready [] share_browsed

abbrev first_volume : Exec
first_volume s cmd = ok (codes "/volume1\n")

share_named : text_eq (share_of (codes "/media/film.mkv")) [] ≡ false
unfolding share_of clean path_of pieces enter_all cut drop_prefix
share_named = refl

volume_asked :
    (run first_volume first_wire
      (volume_lines (share_of (codes "/media/film.mkv")) volume_prefixes)
      ready
      []).0
    ≡ ok (codes "/volume1\n")
unfolding run connect
volume_asked = refl

shell_path-prefix_example :
    let (t, c', issued') = shell_path first_volume first_wire (codes "/media/film.mkv") ready [] in
    (t ≡ trim_space (codes "/volume1\n") ++ codes "/media/film.mkv")
    × ((w' : Wire) (q : Text) (later : Issued)
        → share_of q ≡ share_of (codes "/media/film.mkv")
        → shell_path first_volume w' q c' later ≡ (trim_space (codes "/volume1\n") ++ q, c', later))
unfolding prefix_of
shell_path-prefix_example =
    shell_path-prefix first_volume first_wire (codes "/media/film.mkv") (codes "/volume1\n") ready
      [] share_named refl volume_asked

abbrev good_outside : Outside
good_outside = record {
  codec = no_passphrases;
  exec = first_volume;
  is_broken = always;
  answers = λ s. all_right;
  ended = λ s cmd. exit_status (pos 0);
  reads = λ s cmd. codes "done\n" ∷ [];
}

abbrev same_wires : Wires
same_wires = record {
  for_tools = first_wire;
  for_dest = first_wire;
  for_stage = first_wire;
  for_upload = first_wire;
  for_retry = first_wire;
  for_stream = first_wire;
}

transfer_ends : (transfer good_outside same_wires one_film ready [] []).error ≡ none
unfolding transfer tools settings trim_space trim_left shell_path run connect render credentials
    transfer_line with_session disconnect outcome write_workspace write_files write_file share_of
    clean path_of pieces enter_all cut drop_prefix prefix_of workspace_dir
transfer_ends = refl

transfer_uploaded_example :
    let found = tools first_volume first_wire ready [] in
    (t : Tools) × (tmp : Text) × (found.0 ≡ ok (t, tmp))
    × Went good_outside same_wires one_film t tmp found.1 found.2
        (transfer good_outside same_wires one_film ready [] [])
transfer_uploaded_example =
    transfer_uploaded good_outside same_wires one_film ready [] [] transfer_ends
