-- ===== src/Jobs/Manager/Transfers/Targets.antt =====
-- The path that lftp writes and the path that is measured (internal/jobs/manager.go and
-- internal/nas/lftp.go).
use sftp_relay.Base.{
  String, Text, List, [], ◌∷◌, ◌++◌, append_assoc, append-nil, All, ◌≡◌, sym, ap, ◌∙◌,
}
use sftp_relay.Base.Path.{absolute, path_of, slash}
use sftp_relay.Base.Path.Names.{IsName, rooted-absolute, clean-absolute, absolute-injective}
use sftp_relay.Base.Splitting.{join, base}
use sftp_relay.Base.Splitting.Joining.{join-IsName}
use sftp_relay.Db.Rows.{Server, Job}
use sftp_relay.Nas.Workspace.{TransferSpec, line_to, transfer_line}
use sftp_relay.Jobs.Manager.Transfers.{spec_of, target_of}

path_of-append : (st ps : List Text) → path_of (st ++ ps) ≡ path_of ps ++ path_of st
unfolding path_of
path_of-append [] ps = sym (append-nil (path_of ps))
path_of-append (s ∷ st) ps =
    ap (λ p. p ++ slash ∷ s) (path_of-append st ps)
    ∙ append_assoc (path_of ps) (path_of st) (slash ∷ s)

All-both : (st ps : List Text) → All IsName st → All IsName ps → All IsName (st ++ ps)
All-both [] ps h k = k
All-both (s ∷ st) ps (h, hs) k = (h, All-both st ps hs k)

join-absolute :
    (st : List Text) (s : Text)
    → All IsName st
    → IsName s
    → join (absolute st) s ≡ absolute (s ∷ st)
join-absolute st s h n =
    let (names, cleaned, plain, joined) = join-IsName (absolute st) s (rooted-absolute st) n in
    joined
    ∙ ap (λ l. absolute (s ∷ l))
        (absolute-injective names st plain h (sym cleaned ∙ clean-absolute st h))

join-below :
    (ps st : List Text) (s b : Text)
    → All IsName (s ∷ st)
    → All IsName ps
    → IsName b
    → join (path_of ps ++ absolute (s ∷ st)) b ≡ path_of ps ++ join (absolute (s ∷ st)) b
join-below ps st s b names above named =
    ap (λ p. join p b) (sym (path_of-append (s ∷ st) ps))
    ∙ join-absolute ((s ∷ st) ++ ps) b (All-both (s ∷ st) ps names above) named
    ∙ path_of-append (b ∷ s ∷ st) ps
    ∙ ap (λ p. path_of ps ++ p) (sym (join-absolute (s ∷ st) b names named))

-- A share of the NAS may be mounted below some directories, `ps`, that SFTP does not show. The line of
-- the script then writes the very path below them whose size is polled over SFTP, for a destination
-- that is a clean path below the root.
pub transfer_line-target_of :
    (job : Job) (settings : List (String × Text)) (server : Server) (ps st : List Text) (s : Text)
    → job.dest_path ≡ absolute (s ∷ st)
    → All IsName (s ∷ st)
    → All IsName ps
    → IsName (base job.remote_path)
    → let spec : TransferSpec = record (spec_of job settings server) {
      dest = path_of ps ++ job.dest_path;
    } in
      transfer_line spec ≡ line_to (path_of ps ++ target_of job) spec
unfolding transfer_line spec_of target_of
transfer_line-target_of job settings server ps st s at names above named =
    let spec : TransferSpec = record (spec_of job settings server) {
      dest = path_of ps ++ job.dest_path;
    } in
    let b = base job.remote_path in
    ap (λ l. line_to l spec)
      (ap (λ d. join (path_of ps ++ d) b) at
        ∙ join-below ps st s b names above named
        ∙ ap (λ d. path_of ps ++ join d b) (sym at))
