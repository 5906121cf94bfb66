-- ===== src/Nas/Transfer/Uploading.antt =====
-- What has gone before the command of a transfer (internal/nas/lftp.go).
use sftp_relay.Base.{
  Text, ◌∷◌, Option, none, some, true, ◌≡◌, refl, ap, ◌∙◌, Error, Result, ok, err,
}
use sftp_relay.Nas.Client.{Session, Client, connect, with_session}
use sftp_relay.Nas.Client.Retrying.{with_session_ok}
use sftp_relay.Nas.Shell.{Issued, tools, shell_path}
use sftp_relay.Nas.Upload.{History, set_mode, make_dirs, write_workspace}
use sftp_relay.Nas.Upload.Order.{uploaded, write_workspace-uploaded}
use sftp_relay.Nas.Workspace.{
  TransferSpec, Tools, Workspace, render, workspace_dir, runtime_dir, owner_runs,
}
use sftp_relay.Nas.Transfer.{
  Outside, Wires, Done, streamed, as_result, upload_on, after_upload, after_render, rendered,
  at_dest, with_tools, transfer,
}

module _ (o : Outside) (w : Wires) (spec : TransferSpec) where
  -- The files of `ws` stand in `dir`: the newest requests made it and wrote every file.
  abbrev pub HasUploaded : Text → Workspace → Done → Type 0
  HasUploaded dir ws d =
      (before : History) × (d.history
        ≡ uploaded dir ws.files ((set_mode dir owner_runs, true) ∷ (make_dirs dir, true) ∷ before))

  as_result_ok : (e : Option Error) → as_result o w spec e ≡ ok tt → e ≡ none
  as_result_ok none h = refl
  as_result_ok (some e) h = cc

  streamed_history :
      (cmd : Text) (issued : Issued) (h : History) (x : Result Session × Client)
      → (streamed o w spec cmd issued h x).history ≡ h
  streamed_history cmd issued h (err e, c) = refl
  streamed_history cmd issued h (ok s, c) = refl

  after_upload_ok :
      (dir : Text) (ws : Workspace) (issued : Issued) (x : Result (Unit {0}) × Client × History)
      → ((u : Unit {0})
          → x.0 ≡ ok u
          → (before : History) × (x.2
              ≡ uploaded dir ws.files
                  ((set_mode dir owner_runs, true) ∷ (make_dirs dir, true) ∷ before)))
      → (after_upload o w spec ws.cmd issued x).error ≡ none
      → HasUploaded dir ws (after_upload o w spec ws.cmd issued x)
  after_upload_ok dir ws issued (err e, c, h) up none_ = cc
  after_upload_ok dir ws issued (ok u, c, h) up none_ =
      let (before, at) = up u refl in
      (before, streamed_history ws.cmd issued h (connect w.for_stream c) ∙ at)

  upload_on_ok :
      (dir : Text) (ws : Workspace) (s : Session) (h h' : History) (u : Unit {0})
      → upload_on o w spec dir ws.files s h ≡ (ok u, h')
      → h' ≡ uploaded dir ws.files ((set_mode dir owner_runs, true) ∷ (make_dirs dir, true) ∷ h)
  upload_on_ok dir ws s h h' u e =
      let x = write_workspace (o.answers s) dir ws.files h in
      let fine = as_result_ok x.0 (ap (λ y. y.0) e) in
      write_workspace-uploaded (o.answers s) dir ws.files h h'
        (ap (λ n. (n, x.1)) fine ∙ ap (λ y. (none, y.1)) e)

  after_render_ok :
      (dir : Text) (c : Client) (issued : Issued) (h : History) (r : Result Workspace)
      → (after_render o w spec dir c issued h r).error ≡ none
      → (ws : Workspace) × (r ≡ ok ws) × HasUploaded dir ws (after_render o w spec dir c issued h r)
  after_render_ok dir c issued h (err e) none_ = cc
  after_render_ok dir c issued h (ok ws) none_ =
      let x =
        with_session o.is_broken (upload_on o w spec dir ws.files) w.for_upload w.for_retry c h in
      (
        ws,
        refl,
        after_upload_ok dir ws issued x
            (λ u e.
              let (s, before, _, ran) =
                with_session_ok o.is_broken (upload_on o w spec dir ws.files) (λ h. Unit {0})
                  (λ s r v. tt) w.for_upload w.for_retry c h u x.1 x.2 tt
                  (ap (λ y. (y, x.1, x.2)) e) in
              (before, upload_on_ok dir ws s before x.2 u ran))
            none_,
      )

  -- The workspace of a destination and a stage was rendered and uploaded.
  abbrev pub HasRendered : Tools → Text → Text → Text → Done → Type 0
  HasRendered t tmp dest stage d =
      (ws : Workspace) × (render o.codec (record spec { dest = dest }) stage
          (runtime_dir spec.job_id) t
        ≡ ok ws)
      × HasUploaded (workspace_dir tmp spec.job_id) ws d

  -- What a transfer with these tools went through: the paths that go into the script are those that
  -- the shell of the NAS sees.
  abbrev pub Went : Tools → Text → Client → Issued → Done → Type 0
  Went t tmp c issued d =
      let dest = shell_path o.exec w.for_dest spec.dest c issued in
      let stage = shell_path o.exec w.for_stage (workspace_dir tmp spec.job_id) dest.1 dest.2 in
      HasRendered t tmp dest.0 stage.0 d

  rendered_ok :
      (t : Tools) (tmp : Text) (h : History) (x : Text × Client × Issued) (dest : Text)
      → (rendered o w spec t (workspace_dir tmp spec.job_id) h x dest).error ≡ none
      → HasRendered t tmp dest x.0 (rendered o w spec t (workspace_dir tmp spec.job_id) h x dest)
  rendered_ok t tmp h (stage, c, issued) dest e =
      after_render_ok (workspace_dir tmp spec.job_id) c issued h
        (render o.codec (record spec { dest = dest }) stage (runtime_dir spec.job_id) t) e

  at_dest_ok :
      (t : Tools) (tmp : Text) (h : History) (x : Text × Client × Issued)
      → (at_dest o w spec t (workspace_dir tmp spec.job_id) h x).error ≡ none
      → HasRendered t tmp x.0
          (shell_path o.exec w.for_stage (workspace_dir tmp spec.job_id) x.1 x.2).0
          (at_dest o w spec t (workspace_dir tmp spec.job_id) h x)
  at_dest_ok t tmp h (dest, c, issued) e =
      rendered_ok t tmp h (shell_path o.exec w.for_stage (workspace_dir tmp spec.job_id) c issued)
        dest e

  with_tools_ok :
      (h : History) (x : Result (Tools × Text) × Client × Issued)
      → (with_tools o w spec h x).error ≡ none
      → (t : Tools) × (tmp : Text) × (x.0 ≡ ok (t, tmp))
        × Went t tmp x.1 x.2 (with_tools o w spec h x)
  with_tools_ok h (err e, c, issued) none_ = cc
  with_tools_ok h (ok (t, tmp), c, issued) none_ =
      (t, tmp, refl, at_dest_ok t tmp h (shell_path o.exec w.for_dest spec.dest c issued) none_)

  -- A transfer that ends with no error found its tools, and rendered its workspace for them, for the
  -- destination and for the directory of its job, as the shell of the NAS sees the two. It uploaded
  -- all of that workspace: every file was created, made private, written and closed, in that order and
  -- with success, in the directory of its job, and nothing was uploaded since.
  pub transfer_uploaded :
      (c : Client) (issued : Issued) (h : History)
      → (transfer o w spec c issued h).error ≡ none
      → let found = tools o.exec w.for_tools c issued in
        (t : Tools) × (tmp : Text) × (found.0 ≡ ok (t, tmp))
        × Went t tmp found.1 found.2 (transfer o w spec c issued h)
  unfolding transfer
  transfer_uploaded c issued h e = with_tools_ok h (tools o.exec w.for_tools c issued) e
