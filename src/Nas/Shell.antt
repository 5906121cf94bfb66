-- ===== src/Nas/Shell.antt =====
-- Commands on the NAS: `Run`, `ProbeLftp`, `ProbeSSHPass` and `ShellPath` of internal/nas/nas.go and
-- internal/nas/lftp.go, with `Cancel`, `Sweep` and `tools`. What a command answers is a parameter;
-- the commands that were issued are kept, newest first.
pub mod Probing
pub mod Shares
use sftp_relay.Base.{
  ℕ, String, Text, List, [], ◌∷◌, ◌++◌, Bool, Option, none, some, text_eq, has_prefix, trim_space,
  if◌then◌else◌, codes, Error, external, Result, ok, err,
}
use sftp_relay.Base.Path.{slash, root, clean}
use sftp_relay.Base.Splitting.{split, cut, before_cut, trim_prefix, join}
use sftp_relay.Db.Settings.{set_settings}
use sftp_relay.Nas.Lftp.{sh_quote}
use sftp_relay.Nas.Workspace.{Tools, runtime_dir}
use sftp_relay.Nas.Client.{Session, Client, Wire, setting, connect}

-- The combined output of a command, or how it failed.
abbrev pub Exec : Type 0
Exec = Session → Text → Result Text

abbrev pub Issued : Type 0
Issued = List Text

abbrev pub lftp_candidates : List Text
lftp_candidates =
    codes "/opt/bin/lftp"
    ∷ codes "/usr/local/bin/lftp"
    ∷ codes "/usr/bin/lftp"
    ∷ codes "/bin/lftp"
    ∷ codes "/volume1/@entware/opt/bin/lftp"
    ∷ codes "/usr/local/lftp/bin/lftp"
    ∷ []

unfoldable pub probe_lines : List Text → Text
probe_lines [] = codes "true"
probe_lines (p ∷ ps) =
    codes "p=$(command -v "
    ++ (p
        ++ (codes " 2>/dev/null) && \"$p\" -v >/dev/null 2>&1 && { echo \"$p\"; exit 0; }; \n"
            ++ probe_lines ps))

unfoldable pub lftp_probe : Text
unfolding probe_lines
lftp_probe = probe_lines (codes "lftp" ∷ lftp_candidates)

abbrev pub sshpass_probe : Text
sshpass_probe =
    codes "for s in sshpass /opt/bin/sshpass; do p=$(command -v \"$s\" 2>/dev/null) && \"$p\" -V"
    ++ codes " >/dev/null 2>&1 && { echo \"$p\"; exit 0; }; done; true"

-- The first line that is an absolute path.
unfoldable pub first_absolute : List Text → Option Text
first_absolute [] = none
first_absolute (l ∷ ls) =
    let rest = first_absolute ls in
    if has_prefix (trim_space l) root then some (trim_space l) else rest

abbrev pub volume_prefixes : List Text
volume_prefixes =
    []
    ∷ codes "/volume1"
    ∷ codes "/volume2"
    ∷ codes "/volume3"
    ∷ codes "/volume4"
    ∷ codes "/volumeUSB1"
    ∷ codes "/volumeUSB2"
    ∷ []

unfoldable pub volume_lines : Text → List Text → Text
volume_lines share [] = codes "true"
volume_lines share (v ∷ vs) =
    codes "[ -e "
    ++ (sh_quote (v ++ slash ∷ share)
        ++ (codes " ] && { printf '%s\n' "
            ++ (sh_quote v ++ (codes "; exit 0; };\n" ++ volume_lines share vs))))

-- The first name of a path.
unfoldable pub share_of : Text → Text
unfolding clean cut
share_of p = let t = trim_prefix (clean p) root in before_cut t (cut slash t)

-- c.prefixes[share]
unfoldable pub prefix_of : Text → List (Text × Text) → Option Text
prefix_of share [] = none
prefix_of share ((s, v) ∷ m) =
    let rest = prefix_of share m in if text_eq s share then some v else rest

abbrev pub with_prefix : Text → Text → Client → Client
with_prefix share v c = record c { prefixes = (share, v) ∷ c.prefixes }

abbrev pub with_setting : String → Text → Client → Client
with_setting key v c = record c { db = set_settings ((key, v) ∷ []) c.db }

module _ (exec : Exec) where
  abbrev pub ran : Text → Result Session × Client → Issued → Result Text × Client × Issued
  ran cmd (err e, c) issued = (err e, c, issued)
  ran cmd (ok s, c) issued = (exec s cmd, c, cmd ∷ issued)

  unfoldable pub run : Wire → Text → Client → Issued → Result Text × Client × Issued
  unfolding connect
  run w cmd c issued = ran cmd (connect w c) issued

  -- A tool that was not found has its setting cleared, so that a stale path is not used.
  abbrev pub noted :
      String → Result Text → Option Text → Client → Issued → Result Text × Client × Issued
  noted key missing none c issued = (missing, with_setting key [] c, issued)
  noted key missing (some line) c issued = (ok line, with_setting key line c, issued)

  abbrev pub probed :
      String → Result Text → Result Text × Client × Issued → Result Text × Client × Issued
  probed key missing (err e, c, issued) = (err e, c, issued)
  probed key missing (ok out, c, issued) =
      noted key missing (first_absolute (split 10 out)) c issued

  unfoldable pub probe_lftp : Wire → Client → Issued → Result Text × Client × Issued
  unfolding run lftp_probe first_absolute
  probe_lftp w c issued =
      probed "lftp_path" (err (external (codes "no working lftp"))) (run w lftp_probe c issued)

  -- The absence of sshpass is no error.
  unfoldable pub probe_sshpass : Wire → Client → Issued → Result Text × Client × Issued
  unfolding run first_absolute
  probe_sshpass w c issued = probed "sshpass_path" (ok []) (run w sshpass_probe c issued)

  -- A share that cannot be resolved leaves the path as it is.
  abbrev pub shell_path_from : Text → Text → Result Text × Client × Issued → Text × Client × Issued
  shell_path_from share p (err e, c, issued) = (p, c, issued)
  shell_path_from share p (ok out, c, issued) =
      (trim_space out ++ p, with_prefix share (trim_space out) c, issued)

  abbrev pub shell_path_by :
      Wire → Text → Text → Client → Issued → Option Text → Text × Client × Issued
  shell_path_by w share p c issued (some prefix) = (prefix ++ p, c, issued)
  shell_path_by w share p c issued none =
      shell_path_from share p (run w (volume_lines share volume_prefixes) c issued)

  unfoldable pub shell_path : Wire → Text → Client → Issued → Text × Client × Issued
  unfolding share_of prefix_of run volume_lines
  shell_path w p c issued =
      let share = share_of p in
      if text_eq share []
      then (p, c, issued)
      else shell_path_by w share p c issued (prefix_of share c.prefixes)

  abbrev pub tools_with :
      Text → Text → Result Text × Client × Issued → Result (Tools × Text) × Client × Issued
  tools_with sshpass tmp (err e, c, issued) = (err e, c, issued)
  tools_with sshpass tmp (ok lftp, c, issued) =
      (ok (record { lftp = lftp; sshpass = sshpass }, tmp), c, issued)

  -- The settings are read once, before the probe.
  unfoldable pub tools : Wire → Client → Issued → Result (Tools × Text) × Client × Issued
  unfolding probe_lftp
  tools w c issued =
      let lftp = setting "lftp_path" c.db in
      let found : Result Text × Client × Issued =
        (if text_eq lftp [] then probe_lftp w c issued else (ok lftp, c, issued)) in
      tools_with (setting "sshpass_path" c.db) (setting "nas_tmp" c.db) found

  abbrev pub told : Result Text × Client × Issued → Result (Unit {0}) × Client × Issued
  told (err e, c, issued) = (err e, c, issued)
  told (ok out, c, issued) = (ok tt, c, issued)

  abbrev pub kill_script : ℕ → Text
  kill_script job =
      codes "p=$(cat "
      ++ (sh_quote (join (runtime_dir job) (codes "pid"))
          ++ codes " 2>/dev/null); [ -n \"$p\" ] && kill -TERM \"$p\" 2>/dev/null; true")

  unfoldable pub cancel : Wire → ℕ → Client → Issued → Result (Unit {0}) × Client × Issued
  unfolding run runtime_dir join
  cancel w job c issued = told (run w (kill_script job) c issued)

  abbrev pub sweep_script : Text → Text
  sweep_script tmp = codes "rm -rf " ++ (sh_quote tmp ++ codes "/job-* /tmp/sftp-relay-job-*; true")

  abbrev pub swept : Wire → Text × Client × Issued → Result (Unit {0}) × Client × Issued
  swept w (tmp, c, issued) = told (run w (sweep_script tmp) c issued)

  abbrev pub sweep_with :
      Wire → Wire → Result (Tools × Text) × Client × Issued → Result (Unit {0}) × Client × Issued
  sweep_with w w' (err e, c, issued) = (err e, c, issued)
  sweep_with w w' (ok (t, tmp), c, issued) =
      swept w' (shell_path w (if text_eq (trim_space tmp) [] then codes "/tmp" else tmp) c issued)

  unfoldable pub sweep : Wire → Wire → Wire → Client → Issued → Result (Unit {0}) × Client × Issued
  unfolding tools shell_path run
  sweep w₁ w₂ w₃ c issued = sweep_with w₂ w₃ (tools w₁ c issued)
