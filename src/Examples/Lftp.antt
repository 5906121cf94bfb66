-- ===== src/Examples/Lftp.antt =====
-- A transfer of one film, from its script to the lines that lftp prints (internal/nas/lftp.go and
-- internal/nas/progress.go).
use sftp_relay.Base.{
  All, ℕ, Text, List, [], ◌∷◌, ◌++◌, true, false, none, some, codes, ◌≡◌, refl, external, ok, err,
  length, ◌⊎◌, trim_space, trim_left, has_prefix, arith, Option,
}
use sftp_relay.Base.Int.{ℤ, pos, negsuc, ◌≤ℤ◌}
use sftp_relay.Base.Decimal.{itoa}
use sftp_relay.Base.Path.{root}
use sftp_relay.Base.Splitting.{join, base, trim_right}
use sftp_relay.Db.Rows.{Server}
use sftp_relay.Nas.Lftp.{lftp_quote}
use sftp_relay.Nas.Workspace.{
  TransferSpec, GenFile, Tools, Workspace, KeyCodec, render, credentials, transfer_line,
  workspace_of, password_credentials, owner_only, owner_runs,
}
use sftp_relay.Nas.Workspace.Directories.{staging}
use sftp_relay.Nas.Workspace.Secrets.{with_secrets, open_files, render-conceals}
use sftp_relay.Nas.Upload.{
  write, set_mode, make_dirs, Answers, History, write_file, write_files, write_workspace,
}
use sftp_relay.Nas.Upload.Order.{
  IsSecured, uploaded, write_workspace-IsSecured, write_workspace-uploaded,
}
use sftp_relay.Nas.Progress.{parse_progress, nothing_yet}
use sftp_relay.Nas.Progress.Bounds.{parse_progress-IsSensible}
use sftp_relay.Nas.Progress.Got.{got_text, parse_progress-got_text}
use sftp_relay.Jobs.Manager.Transfers.{spec_of, target_of}
use sftp_relay.Jobs.Manager.Transfers.Targets.{transfer_line-target_of}
use sftp_relay.Base.Path.{absolute, path_of}
use sftp_relay.Base.Path.Names.{IsName}
use sftp_relay.Base.Splitting.{split_where, last_piece}
use sftp_relay.Nas.Workspace.{line_to}
use sftp_relay.Examples.{seedbox, film}

temporary_is_absolute : has_prefix (staging (codes "/volume1/tmp")) root ≡ true
unfolding trim_space trim_left
temporary_is_absolute = refl

abbrev pub no_passphrases : KeyCodec
no_passphrases = record {
  parse = λ k. none;
  open_with = λ k p. err (external (codes "wrong passphrase"));
  encode = λ k. ok k;
}

abbrev pub known_server : Server
known_server = record seedbox { host_key = codes "ssh-ed25519 AAAA" }

abbrev pub one_film : TransferSpec
one_film = record {
  job_id = 7;
  kind = "file";
  remote = codes "/srv/film.mkv";
  dest = codes "/volume1/media";
  segments = pos 4;
  parallel = pos 2;
  server = known_server;
}

abbrev pub both_tools : Tools
both_tools = record { lftp = codes "/opt/bin/lftp"; sshpass = codes "/opt/bin/sshpass" }

abbrev film_line : Text
film_line =
    codes "pget -n "
    ++ (itoa (pos 4)
        ++ (codes " -c "
            ++ (lftp_quote (codes "/srv/film.mkv")
                ++ (codes " -o "
                    ++ lftp_quote (join (codes "/volume1/media") (base (codes "/srv/film.mkv")))))))

-- The workspace of the film under some password.
abbrev rendered_with : Text → Workspace
rendered_with password =
    workspace_of (with_secrets password [] [] one_film) (codes "/s") (codes "/d") both_tools
      (pos 22) (password_credentials (codes "/d") both_tools password) film_line

film_renders :
    (password : Text)
    → render no_passphrases
        (with_secrets password [] [] one_film)
        (codes "/s")
        (codes "/d")
        both_tools
      ≡ ok (rendered_with password)
unfolding render credentials transfer_line trim_space trim_left
film_renders password = refl

render-conceals_example :
    (length (open_files (rendered_with (codes "secret"))) ≡ 1)
    × (open_files (rendered_with (codes "changed")) ≡ open_files (rendered_with (codes "secret")))
    × ((rendered_with (codes "changed")).cmd ≡ (rendered_with (codes "secret")).cmd)
render-conceals_example =
    render-conceals no_passphrases one_film (codes "/s") (codes "/d") both_tools
      (rendered_with (codes "secret")) (rendered_with (codes "changed")) (codes "changed") [] []
      (film_renders (codes "secret")) (film_renders (codes "changed"))

abbrev reads : List Text
reads = codes "  got 5 o" ∷ (codes "f 10 \t" ++ 13 ∷ []) ∷ codes "\n\ndone" ∷ []

abbrev two_files : List GenFile
two_files =
    record { name = codes "cmds"; mode = owner_only; body = codes "bye\n" }
    ∷ record { name = codes "run.sh"; mode = owner_runs; body = codes "exit 0\n" }
    ∷ []

-- A server whose disk is full.
abbrev full_disk : Answers
full_disk h (write p body) = some (external (codes "no space left"))
full_disk h a = none

abbrev pub all_right : Answers
all_right h a = none

write_workspace-IsSecured_example :
    IsSecured (codes "/s") two_files (write_workspace full_disk (codes "/s") two_files []).1
write_workspace-IsSecured_example = write_workspace-IsSecured full_disk (codes "/s") two_files

abbrev whole_upload : History
whole_upload =
    uploaded (codes "/s") two_files
      ((set_mode (codes "/s") owner_runs, true) ∷ (make_dirs (codes "/s"), true) ∷ [])

two_files_go_up : write_workspace all_right (codes "/s") two_files [] ≡ (none, whole_upload)
unfolding write_workspace write_files write_file
two_files_go_up = refl

write_workspace-uploaded_example :
    whole_upload
    ≡ uploaded
        (codes "/s")
        two_files
        ((set_mode (codes "/s") owner_runs, true) ∷ (make_dirs (codes "/s"), true) ∷ [])
write_workspace-uploaded_example =
    write_workspace-uploaded all_right (codes "/s") two_files [] whole_upload two_files_go_up

abbrev no_floats : Text → ℕ → Option ℤ
no_floats t n = none

parse_progress-IsSensible_example :
    let (p, found) = parse_progress no_floats (codes "`film' at 5 (120%) 3.5M/s eta:2m") in
    (pos 0 ≤ℤ p.bytes)
    × (pos 0 ≤ℤ p.total)
    × ((p.percent ≡ negsuc 0) ⊎ ((pos 0 ≤ℤ p.percent) × (p.percent ≤ℤ pos 100)))
    × (found ≡ false → p ≡ nothing_yet.0)
parse_progress-IsSensible_example =
    parse_progress-IsSensible no_floats (codes "`film' at 5 (120%) 3.5M/s eta:2m")

film_named : IsName (base (film 7 "running").remote_path)
unfolding base split_where trim_right last_piece
film_named = record {
  not_skipped = refl;
  not_back = refl;
  no_slash = (refl, (refl, (refl, (refl, (refl, (refl, (refl, (refl, tt))))))));
}

dest_is_below_root : (film 7 "running").dest_path ≡ absolute (codes "media" ∷ codes "volume1" ∷ [])
unfolding path_of
dest_is_below_root = refl

dest-IsName : All IsName (codes "media" ∷ codes "volume1" ∷ [])
dest-IsName = (
  record {
    not_skipped = refl;
    not_back = refl;
    no_slash = (refl, (refl, (refl, (refl, (refl, tt)))));
  },
  (
    record {
      not_skipped = refl;
      not_back = refl;
      no_slash = (refl, (refl, (refl, (refl, (refl, (refl, (refl, tt)))))));
    },
    tt,
  ),
)

transfer_line-target_of_example :
    let spec : TransferSpec = record (spec_of (film 7 "running") [] seedbox) {
      dest = path_of (codes "media" ∷ []) ++ (film 7 "running").dest_path;
    } in
    transfer_line spec ≡ line_to (path_of (codes "media" ∷ []) ++ target_of (film 7 "running")) spec
transfer_line-target_of_example =
    transfer_line-target_of (film 7 "running") [] seedbox (codes "media" ∷ [])
      (codes "volume1" ∷ []) (codes "media") dest_is_below_root dest-IsName (dest-IsName.0, tt)
      film_named

abbrev got_line : Text
got_line = codes "`film', " ++ got_text 5 10 (codes " (50%)")

parse_progress-got_text_example :
    let (p, found) = parse_progress no_floats got_line in
    (p.bytes ≡ pos 5) × (p.total ≡ pos 10) × (found ≡ true)
parse_progress-got_text_example =
    parse_progress-got_text no_floats (codes "`film', ") (codes " (50%)") 5 10
      (refl, (refl, (refl, (refl, (refl, (refl, (refl, (refl, tt)))))))) refl (omega arith)
      (omega arith)
