-- ===== src/Nas/Shell/Shares.antt =====
-- How a path is translated for the shell (internal/nas/nas.go).
use sftp_relay.Base.{
  Text, List, [], ◌∷◌, ◌++◌, none, some, false, text_eq, text_eq_iff, trim_space, if◌then◌else◌,
  subst, ◌≡◌, refl, sym, ap, ◌∙◌, ok,
}
use sftp_relay.Nas.Client.{Client, Wire}
use sftp_relay.Nas.Shell.{
  Exec, Issued, share_of, prefix_of, with_prefix, run, volume_lines, volume_prefixes,
  shell_path_from, shell_path_by, shell_path,
}

-- The share is known: its prefix is in the cache.
abbrev pub IsKnown : Text → Text → Client → Type 0
IsKnown share prefix c = prefix_of share c.prefixes ≡ some prefix

shell_path_known :
    (exec : Exec) (w : Wire) (p prefix : Text) (c : Client) (issued : Issued)
    → text_eq (share_of p) [] ≡ false
    → IsKnown (share_of p) prefix c
    → shell_path exec w p c issued ≡ (prefix ++ p, c, issued)
unfolding shell_path
shell_path_known exec w p prefix c issued named known =
    ap
      (λ b.
        if b
        then (p, c, issued)
        else shell_path_by exec w (share_of p) p c issued (prefix_of (share_of p) c.prefixes))
      named
    ∙ ap (shell_path_by exec w (share_of p) p c issued) known

shell_path_new :
    (exec : Exec) (w : Wire) (p : Text) (c : Client) (issued : Issued)
    → text_eq (share_of p) [] ≡ false
    → prefix_of (share_of p) c.prefixes ≡ none
    → shell_path exec w p c issued
      ≡ shell_path_from exec
          (share_of p)
          p
          (run exec w (volume_lines (share_of p) volume_prefixes) c issued)
unfolding shell_path
shell_path_new exec w p c issued named unknown =
    ap
      (λ b.
        if b
        then (p, c, issued)
        else shell_path_by exec w (share_of p) p c issued (prefix_of (share_of p) c.prefixes))
      named
    ∙ ap (shell_path_by exec w (share_of p) p c issued) unknown

prefix_of_new :
    (share v : Text) (m : List (Text × Text)) → prefix_of share ((share, v) ∷ m) ≡ some v
unfolding prefix_of
prefix_of_new share v m = rw ((text_eq_iff share share).1 refl) refl

-- A path below a share is translated by one prefix of the share. Where the share is not known yet and
-- the NAS answers, the answer is that prefix from then on: every other path below the share gets it,
-- with no command, and the client stays as it is.
pub shell_path-prefix :
    (exec : Exec) (w : Wire) (p out : Text) (c : Client) (issued : Issued)
    → text_eq (share_of p) [] ≡ false
    → prefix_of (share_of p) c.prefixes ≡ none
    → (run exec w (volume_lines (share_of p) volume_prefixes) c issued).0 ≡ ok out
    → let (t, c', issued') = shell_path exec w p c issued in
      (t ≡ trim_space out ++ p)
      × ((w' : Wire) (q : Text) (later : Issued)
          → share_of q ≡ share_of p
          → shell_path exec w' q c' later ≡ (trim_space out ++ q, c', later))
shell_path-prefix exec w p out c issued named unknown answered =
    let share = share_of p in
    let r = run exec w (volume_lines share volume_prefixes) c issued in
    let prefix = trim_space out in
    let asked =
      shell_path_new exec w p c issued named unknown
      ∙ ap (λ x. shell_path_from exec share p (x, r.1, r.2)) answered in
    (
      ap (λ x. x.0) asked,
      λ w' q later same.
          subst (λ d. shell_path exec w' q d later ≡ (prefix ++ q, d, later))
            (sym (ap (λ x. x.1) asked))
            (shell_path_known exec w' q prefix (with_prefix share prefix r.1) later
              (ap (λ t. text_eq t []) same ∙ named)
              (ap (λ t. prefix_of t ((share, prefix) ∷ r.1.prefixes)) same
                ∙ prefix_of_new share prefix r.1.prefixes)),
    )
