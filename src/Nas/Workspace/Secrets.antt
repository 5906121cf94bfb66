-- ===== src/Nas/Workspace/Secrets.antt =====
-- Where the credentials of a server may show in a workspace (internal/nas/lftp.go).
use sftp_relay.Base.{
  Text, List, [], ◌∷◌, not, ◌==◌, ◌++◌, codes, length, keep, ◌≡◌, refl, sym, ap, ◌∙◌, str_eq,
  text_eq, trim_space, ok, ◌>>=◌, bind_ok, ok_injective, inl, inr, Bool-cases,
}
use sftp_relay.Base.Int.{ℤ}
use sftp_relay.Base.Splitting.{join}
use sftp_relay.Db.Rows.{Server}
use sftp_relay.Nas.Lftp.{sh_quote}
use sftp_relay.Nas.Workspace.{
  TransferSpec, GenFile, Tools, Workspace, KeyCodec, Credentials, owner_only, credentials,
  transfer_line, workspace_of, default_port, render, key_credentials, password_credentials,
  decrypt_key, script_file, run_script,
}

-- What others than the owner of the files may see: the command, and the files that are more than
-- private.
abbrev pub open_files : Workspace → List GenFile
open_files w = keep (λ f. not (f.mode == owner_only)) w.files

-- The same transfer with other secrets, in the same kinds of fields.
abbrev pub with_secrets : Text → Text → Text → TransferSpec → TransferSpec
with_secrets password key passphrase spec = record spec {
  server = record spec.server { password = password; private_key = key; passphrase = passphrase };
}

-- What a rendered workspace is made of.
pub render_ok :
    (codec : KeyCodec) (spec : TransferSpec) (stage dir : Text) (t : Tools) (w : Workspace)
    → render codec spec stage dir t ≡ ok w
    → (c : Credentials) × (transfer : Text) × (credentials codec spec.server dir t ≡ ok c)
      × (transfer_line spec ≡ ok transfer)
      × (w ≡ workspace_of spec stage dir t (default_port spec.server.port) c transfer)
unfolding render
render_ok codec spec stage dir t w h = elim (Bool-cases (text_eq t.lftp [])) [
  | inl e ↦ cc (rw e at h)
  | inr e ↦ elim (Bool-cases (text_eq (trim_space spec.server.host_key) [])) [
    | inl k ↦ cc (rw (e, k) at h)
    | inr k ↦
        let (c, hc, rest) =
          bind_ok (credentials codec spec.server dir t)
            (λ c. transfer_line spec >>= λ l.
              ok (workspace_of spec stage dir t (default_port spec.server.port) c l))
            w (rw (e, k) at h) in
        let (l, hl, last) =
          bind_ok (transfer_line spec)
            (λ l. ok (workspace_of spec stage dir t (default_port spec.server.port) c l)) w rest in
        (c, l, hc, hl, sym (ok_injective _ w last))
  ]
]

credentials_private :
    (codec : KeyCodec) (s : Server) (dir : Text) (t : Tools) (c : Credentials)
    → credentials codec s dir t ≡ ok c
    → c.file.mode ≡ owner_only
unfolding credentials
credentials_private codec s dir t c h = elim (Bool-cases (str_eq s.auth_type "key")) [
  | inl k ↦
      let (key, _, made) =
        bind_ok (decrypt_key codec s.private_key s.passphrase) (λ key. ok (key_credentials dir key))
          c (rw k at h) in
      ap (λ c. c.file.mode) (sym (ok_injective (key_credentials dir key) c made))
  | inr k ↦ elim (Bool-cases (str_eq s.auth_type "password")) [
    | inl p ↦ elim (Bool-cases (text_eq t.sshpass [])) [
      | inl e ↦ cc (rw (k, p, e) at h)
      | inr e ↦
          ap (λ c. c.file.mode)
            (sym (ok_injective (password_credentials dir t s.password) c (rw (k, p, e) at h)))
    ]
    | inr p ↦ cc (rw (k, p) at h)
  ]
]

open_files_of :
    (spec : TransferSpec) (stage dir : Text) (t : Tools) (port : ℤ) (c : Credentials) (l : Text)
    → c.file.mode ≡ owner_only
    → open_files (workspace_of spec stage dir t port c l)
      ≡ script_file (run_script stage dir t.lftp) ∷ []
open_files_of spec stage dir t port c l h = rw h refl

-- What others see of a workspace that was rendered.
render_seen :
    (codec : KeyCodec) (spec : TransferSpec) (stage dir : Text) (t : Tools) (w : Workspace)
    → render codec spec stage dir t ≡ ok w
    → (open_files w ≡ script_file (run_script stage dir t.lftp) ∷ [])
      × (w.cmd ≡ codes "/bin/sh " ++ sh_quote (join stage (codes "run.sh")))
render_seen codec spec stage dir t w h =
    let (c, l, hc, _, e) = render_ok codec spec stage dir t w h in
    let private = credentials_private codec spec.server dir t c hc in
    let port = default_port spec.server.port in
    (ap open_files e ∙ open_files_of spec stage dir t port c l private, ap (λ w. w.cmd) e)

-- The files of a workspace that are more than private are the script alone, and neither it nor the
-- command depends on a secret of the server: with any other password, key and passphrase they are
-- the same.
pub render-conceals :
    (codec : KeyCodec) (spec : TransferSpec) (stage dir : Text) (t : Tools) (w w' : Workspace)
    (password key passphrase : Text)
    → render codec spec stage dir t ≡ ok w
    → render codec (with_secrets password key passphrase spec) stage dir t ≡ ok w'
    → (length (open_files w) ≡ 1) × (open_files w' ≡ open_files w) × (w'.cmd ≡ w.cmd)
render-conceals codec spec stage dir t w w' password key passphrase h h' =
    let one = render_seen codec spec stage dir t w h in
    let two = render_seen codec (with_secrets password key passphrase spec) stage dir t w' h' in
    (ap length one.0, two.0 ∙ sym one.0, two.1 ∙ sym one.1)
