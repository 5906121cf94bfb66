-- ===== src/Nas/Workspace.antt =====
-- The files and the command of a transfer: `render`, `knownHostsLine`, `decryptKey` and the names of
-- the directories in internal/nas/lftp.go.
pub mod Directories
pub mod Secrets
use sftp_relay.Base.{
  ℕ, String, Text, List, [], ◌∷◌, ◌++◌, Bool, false, ◌==◌, not, text_eq, str_eq, trim_space,
  if◌then◌else◌, codes, Error, external, no_host_key, no_sshpass, Result, ok, err, ◌>>=◌, Option,
  none, some,
}
use sftp_relay.Base.Int.{ℤ, pos, negsuc, ltb_ℤ}
use sftp_relay.Base.Decimal.{itoa, itoa_ℕ}
use sftp_relay.Base.Splitting.{join, base, join_with}
use sftp_relay.Db.Rows.{Server}
use sftp_relay.Nas.Lftp.{sh_quote, lftp_quote, normalize_pem}

pub record TransferSpec : Type 0 where
  pub job_id : ℕ
  pub kind : String
  pub remote : Text
  pub dest : Text
  pub segments : ℤ
  pub parallel : ℤ
  pub server : Server

pub record GenFile : Type 0 where
  pub name : Text
  pub mode : ℕ
  pub body : Text

pub record Tools : Type 0 where
  pub lftp : Text
  pub sshpass : Text

pub record Workspace : Type 0 where
  pub files : List GenFile
  pub cmd : Text

-- 0o600 and 0o700
abbrev pub owner_only : ℕ
owner_only = 384

abbrev pub owner_runs : ℕ
owner_runs = 448

-- What the SSH library does with a private key: `none` where it parses, and the key without its
-- passphrase, encoded again.
pub record KeyCodec : Type 0 where
  pub parse : Text → Option Error
  pub open_with : Text → Text → Result Text
  pub encode : Text → Result Text

abbrev pub parsed : Text → Option Error → Result Text
parsed key none = ok (normalize_pem key)
parsed key (some e) = err e

unfoldable pub decrypt_key : KeyCodec → Text → Text → Result Text
decrypt_key codec key passphrase =
    if text_eq (trim_space key) []
    then err (external (codes "no private key stored"))
    else if text_eq passphrase []
    then parsed key (codec.parse key)
    else codec.open_with key passphrase >>= λ raw.
        codec.encode raw >>= λ pem. ok (normalize_pem pem)

abbrev pub is_port_22 : ℤ → Bool
is_port_22 (pos n) = n == 22
is_port_22 (negsuc n) = false

unfoldable pub known_hosts_line : Text → ℤ → Text → Text
unfolding itoa
known_hosts_line host port key =
    let pattern =
      if is_port_22 port then host else codes "[" ++ (host ++ (codes "]:" ++ itoa port)) in
    pattern ++ (codes " " ++ (trim_space key ++ codes "\n"))

abbrev pub default_port : ℤ → ℤ
default_port (pos n) = if n == 0 then pos 22 else pos n
default_port p = p

abbrev pub at_least_one : ℤ → ℤ
at_least_one n = if ltb_ℤ n (pos 1) then pos 1 else n

-- What a kind of authentication adds: a file, options for ssh, and the program that connects.
pub record Credentials : Type 0 where
  pub file : GenFile
  pub options : List Text
  pub connect : Text

abbrev pub key_credentials : Text → Text → Credentials
key_credentials dir key = record {
  file = record { name = codes "key"; mode = owner_only; body = key };
  options = codes "-i" ∷ join dir (codes "key") ∷ codes "-o" ∷ codes "IdentitiesOnly=yes" ∷ [];
  connect = codes "ssh";
}

abbrev pub password_credentials : Text → Tools → Text → Credentials
password_credentials dir t password = record {
  file = record { name = codes "pass"; mode = owner_only; body = password ++ codes "\n" };
  options = [];
  connect = t.sshpass ++ (codes " -f " ++ (join dir (codes "pass") ++ codes " ssh"));
}

unfoldable pub credentials : KeyCodec → Server → Text → Tools → Result Credentials
unfolding decrypt_key
credentials codec s dir t =
    if str_eq s.auth_type "key"
    then (decrypt_key codec s.private_key s.passphrase >>= λ key. ok (key_credentials dir key))
    else if str_eq s.auth_type "password"
    then (if text_eq t.sshpass []
        then err no_sshpass
        else ok (password_credentials dir t s.password))
    else err (external (codes "unknown auth_type"))

-- Where the transfer goes, as the shell of the NAS sees it.
abbrev pub local_path : TransferSpec → Text
local_path spec = join spec.dest (base spec.remote)

unfoldable pub line_to : Text → TransferSpec → Result Text
unfolding itoa
line_to local spec =
    let n = itoa (at_least_one spec.segments) in
    if str_eq spec.kind "file"
    then ok (
        codes "pget -n "
        ++ (n ++ (codes " -c " ++ (lftp_quote spec.remote ++ (codes " -o " ++ lftp_quote local)))))
    else if str_eq spec.kind "dir"
    then ok (
        codes "mirror --continue --parallel="
        ++ (itoa (at_least_one spec.parallel)
            ++ (codes " --use-pget-n="
                ++ (n
                    ++ (codes " "
                        ++ (lftp_quote spec.remote ++ (codes " " ++ lftp_quote local)))))))
    else err (external (codes "unknown job kind"))

unfoldable pub transfer_line : TransferSpec → Result Text
unfolding line_to join base
transfer_line spec = line_to (local_path spec) spec

abbrev pub ssh_options : Text → ℤ → List Text
ssh_options dir port =
    codes "-a"
    ∷ codes "-x"
    ∷ codes "-o"
    ∷ codes "StrictHostKeyChecking=yes"
    ∷ codes "-o"
    ∷ (codes "UserKnownHostsFile=" ++ join dir (codes "known_hosts"))
    ∷ codes "-o"
    ∷ codes "BatchMode=yes"
    ∷ codes "-p"
    ∷ itoa port
    ∷ []

-- The commands that lftp reads.
unfoldable pub commands : Server → Text → ℤ → Credentials → Text → Text
unfolding join_with
commands s dir port c transfer =
    codes "set cmd:fail-exit yes\n"
    ++ (codes "set net:max-retries 3\n"
        ++ (codes "set net:timeout 30\n"
            ++ (codes "set xfer:use-temp-file yes\n"
                ++ (codes "set xfer:clobber yes\n"
                    ++ (codes "set sftp:auto-confirm no\n"
                        ++ (codes "set sftp:connect-program "
                            ++ (lftp_quote (
                                  c.connect
                                  ++ (codes " "
                                      ++ join_with (codes " ") (ssh_options dir port ++ c.options)))
                                ++ (codes "\nopen -u "
                                    ++ (lftp_quote (s.username ++ (codes "," ++ s.password))
                                        ++ (codes " sftp://"
                                            ++ (lftp_quote s.host
                                                ++ (codes "\n"
                                                    ++ (transfer ++ codes "\nbye\n")))))))))))))

-- The script, in the words of the source.
unfoldable pub run_script : Text → Text → Text → Text
run_script stage dir lftp =
    codes "#!/bin/sh\ns="
    ++ (sh_quote stage
        ++ (codes "\nd="
            ++ (sh_quote dir
                ++ (codes "\ncleanup() { rm -rf \"$d\" \"$s\"; }\n"
                    ++ (codes "trap cleanup EXIT INT TERM HUP\n"
                        ++ (codes "exec 2>&1\n"
                            ++ (codes
                                  "rm -rf \"$d\" && mkdir -p \"$d\" && chmod 700 \"$d\" || exit 1\n"
                                ++ (codes "cp \"$s\"/cmds \"$s\"/known_hosts \"$d\"/ || exit 1\n"
                                    ++ (codes
                                          "for f in key pass; do [ -f \"$s/$f\" ] && cp \"$s/$f\" \"$d/$f\"; done\n"
                                        ++ (codes "chmod 600 \"$d\"/* || exit 1\n"
                                            ++ (sh_quote lftp
                                                ++ (codes " -f \"$d/cmds\" &\n"
                                                    ++ (codes "p=$!\n"
                                                        ++ (codes "echo \"$p\" > \"$d/pid\"\n"
                                                            ++ (codes "wait \"$p\"\n"
                                                            ++ codes "exit $?\n")))))))))))))))

abbrev pub known_hosts_file : Server → ℤ → GenFile
known_hosts_file s port = record {
  name = codes "known_hosts";
  mode = owner_only;
  body = known_hosts_line s.host port s.host_key;
}

abbrev pub commands_file : Text → GenFile
commands_file text = record { name = codes "cmds"; mode = owner_only; body = text }

abbrev pub script_file : Text → GenFile
script_file text = record { name = codes "run.sh"; mode = owner_runs; body = text }

-- The whole of it, once the credentials and the line of the transfer are there.
abbrev pub workspace_of : TransferSpec → Text → Text → Tools → ℤ → Credentials → Text → Workspace
workspace_of spec stage dir t port c transfer = record {
  files =
      known_hosts_file spec.server port
      ∷ c.file
      ∷ commands_file (commands spec.server dir port c transfer)
      ∷ script_file (run_script stage dir t.lftp)
      ∷ [];
  cmd = codes "/bin/sh " ++ sh_quote (join stage (codes "run.sh"));
}

unfoldable pub render : KeyCodec → TransferSpec → Text → Text → Tools → Result Workspace
render codec spec stage dir t =
    if text_eq t.lftp []
    then err (external (codes "lftp path is not known yet"))
    else if text_eq (trim_space spec.server.host_key) []
    then err no_host_key
    else credentials codec spec.server dir t >>= λ c. transfer_line spec >>= λ transfer.
        ok (workspace_of spec stage dir t (default_port spec.server.port) c transfer)

unfoldable pub workspace_dir : Text → ℕ → Text
unfolding join itoa_ℕ
workspace_dir tmp job =
    join (if text_eq (trim_space tmp) [] then codes "/tmp" else tmp) (codes "job-" ++ itoa_ℕ job)

unfoldable pub runtime_dir : ℕ → Text
unfolding itoa_ℕ
runtime_dir job = codes "/tmp/sftp-relay-job-" ++ itoa_ℕ job
