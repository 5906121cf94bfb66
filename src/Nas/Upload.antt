-- ===== src/Nas/Upload.antt =====
-- `writeWorkspace` of internal/nas/lftp.go: the files of a transfer go to the NAS over SFTP. The
-- server answers each request, and the requests that were made are kept with whether they succeeded.
pub mod Order
use sftp_relay.Base.{
  ℕ, Text, List, [], ◌∷◌, Bool, true, false, Option, none, some, Error, external, codes,
}
use sftp_relay.Base.Splitting.{join}
use sftp_relay.Nas.Workspace.{GenFile, owner_runs}

pub data Action : Type 0 where
  make_dirs : Text → Action
  set_mode : Text → ℕ → Action
  create : Text → Action
  write : Text → Text → Action
  close : Text → Action

-- Newest first.
abbrev pub History : Type 0
History = List (Action × Bool)

-- The answer to a request after others: `none` is success.
abbrev pub Answers : Type 0
Answers = History → Action → Option Error

abbrev pub Outcome : Type 0
Outcome = Option Error × History

module _ (answers : Answers) where
  abbrev pub answered : Action → History → Option Error → (History → Outcome) → Outcome
  answered a h none next = next ((a, true) ∷ h)
  answered a h (some e) next = (some e, (a, false) ∷ h)

  -- A request whose failure ends the upload.
  abbrev pub attempt : Action → (History → Outcome) → History → Outcome
  attempt a next h = answered a h (answers h a) next

  -- After a failure the handle is closed. The error is the one of the close if that fails too, and
  -- otherwise one that wraps nothing: the cause has been shadowed.
  abbrev pub lost : Error
  lost = external (codes "%!w(<nil>)")

  abbrev pub abandoned : Text → History → Option Error → Outcome
  abandoned p h none = (some lost, (close p, true) ∷ h)
  abandoned p h (some e) = (some e, (close p, false) ∷ h)

  abbrev pub abandon : Text → History → Outcome
  abandon p h = abandoned p h (answers h (close p))

  abbrev pub guarded : Text → Action → History → Option Error → (History → Outcome) → Outcome
  guarded p a h none next = next ((a, true) ∷ h)
  guarded p a h (some e) next = abandon p ((a, false) ∷ h)

  -- A request on an open file.
  abbrev pub attempt_on : Text → Action → (History → Outcome) → History → Outcome
  attempt_on p a next h = guarded p a h (answers h a) next

  unfoldable pub write_file : Text → GenFile → (History → Outcome) → History → Outcome
  write_file dir f next h =
      let p = join dir f.name in
      attempt (create p)
        (attempt_on p (set_mode p f.mode) (attempt_on p (write p f.body) (attempt (close p) next)))
        h

  unfoldable pub write_files : Text → List GenFile → History → Outcome
  unfolding write_file
  write_files dir [] h = (none, h)
  write_files dir (f ∷ fs) h = write_file dir f (write_files dir fs) h

  unfoldable pub write_workspace : Text → List GenFile → History → Outcome
  unfolding write_files
  write_workspace dir files h =
      attempt (make_dirs dir) (attempt (set_mode dir owner_runs) (write_files dir files)) h
