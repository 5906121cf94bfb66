-- ===== src/Nas/Transfer.antt =====
-- `Transfer` of internal/nas/lftp.go: the tools, the paths as a shell sees them, the workspace, its
-- upload, and the command, each of which may end it. How the command ends and what it prints are
-- parameters, as are the answers of the SFTP server to an upload.
pub mod Uploading
use sftp_relay.Base.{ℕ, Text, List, [], Bool, Option, none, some, Error, Result, ok, err}
use sftp_relay.Base.Int.{ℤ, pos, negsuc}
use sftp_relay.Nas.Client.{Session, Client, Wire, connect, with_session}
use sftp_relay.Nas.Output.{Ended, outcome, reported}
use sftp_relay.Nas.Shell.{Exec, Issued, tools, shell_path}
use sftp_relay.Nas.Upload.{History, Answers, write_workspace}
use sftp_relay.Nas.Workspace.{
  TransferSpec, GenFile, Tools, Workspace, KeyCodec, render, workspace_dir, runtime_dir,
}

-- What is outside of the relay.
pub record Outside : Type 0 where
  pub codec : KeyCodec
  pub exec : Exec
  pub is_broken : Error → Bool
  pub answers : Session → Answers
  pub ended : Session → Text → Ended
  pub reads : Session → Text → List Text

-- The connections that a transfer may have to make, in their order.
pub record Wires : Type 0 where
  pub for_tools : Wire
  pub for_dest : Wire
  pub for_stage : Wire
  pub for_upload : Wire
  pub for_retry : Wire
  pub for_stream : Wire

pub record Done : Type 0 where
  pub code : ℤ
  pub error : Option Error
  pub client : Client
  pub issued : Issued
  pub history : History
  pub lines : List Text

abbrev pub failed : Error → Client → Issued → History → Done
failed e c issued h = record {
  code = negsuc 0;
  error = some e;
  client = c;
  issued = issued;
  history = h;
  lines = [];
}

module _ (o : Outside) (w : Wires) (spec : TransferSpec) where
  abbrev pub streamed : Text → Issued → History → Result Session × Client → Done
  streamed cmd issued h (err e, c) = failed e c issued h
  streamed cmd issued h (ok s, c) =
      let (code, error) = outcome (o.ended s cmd) in
      record {
        code = code;
        error = error;
        client = c;
        issued = issued;
        history = h;
        lines = reported (o.reads s cmd);
      }

  abbrev pub as_result : Option Error → Result (Unit {0})
  as_result none = ok tt
  as_result (some e) = err e

  -- The upload on a session.
  abbrev pub upload_on : Text → List GenFile → Session → History → Result (Unit {0}) × History
  upload_on dir files s h =
      let (e, h') = write_workspace (o.answers s) dir files h in (as_result e, h')

  abbrev pub after_upload : Text → Issued → Result (Unit {0}) × Client × History → Done
  after_upload cmd issued (err e, c, h) = failed e c issued h
  after_upload cmd issued (ok u, c, h) = streamed cmd issued h (connect w.for_stream c)

  abbrev pub after_render : Text → Client → Issued → History → Result Workspace → Done
  after_render dir c issued h (err e) = failed e c issued h
  after_render dir c issued h (ok ws) =
      after_upload ws.cmd issued
        (with_session o.is_broken (upload_on dir ws.files) w.for_upload w.for_retry c h)

  abbrev pub rendered : Tools → Text → History → Text × Client × Issued → Text → Done
  rendered t dir h (stage, c, issued) dest =
      after_render dir c issued h
        (render o.codec (record spec { dest = dest }) stage (runtime_dir spec.job_id) t)

  abbrev pub at_dest : Tools → Text → History → Text × Client × Issued → Done
  at_dest t dir h (dest, c, issued) =
      rendered t dir h (shell_path o.exec w.for_stage dir c issued) dest

  abbrev pub with_tools : History → Result (Tools × Text) × Client × Issued → Done
  with_tools h (err e, c, issued) = failed e c issued h
  with_tools h (ok (t, tmp), c, issued) =
      at_dest t (workspace_dir tmp spec.job_id) h (shell_path o.exec w.for_dest spec.dest c issued)

  unfoldable pub transfer : Client → Issued → History → Done
  transfer c issued h = with_tools h (tools o.exec w.for_tools c issued)
