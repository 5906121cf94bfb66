-- ===== src/Nas/Shell/Probing.antt =====
-- What a probe leaves in the settings (internal/nas/nas.go, internal/nas/lftp.go).
use sftp_relay.Base.{
  String, Text, List, [], ◌∷◌, Option, none, some, true, has_prefix, trim_space,
  trim_space_idempotent, ◌≡◌, refl, sym, ap, ◌∙◌, ◌⊎◌, inl, inr, subst, ok_injective, codes,
  external, Bool-cases, Error, Result, ok, err,
}
use sftp_relay.Base.Path.{root}
use sftp_relay.Base.Splitting.{split}
use sftp_relay.Db.Settings.{settings, set_settings, assign_all}
use sftp_relay.Nas.Client.{Client, Wire, setting, or_empty}
use sftp_relay.Nas.Client.Pinning.{lookup-assign}
use sftp_relay.Nas.Shell.{
  Exec, Issued, first_absolute, with_setting, run, noted, probed, probe_lftp, lftp_probe,
  sshpass_probe, probe_sshpass,
}

-- What is set is what is read.
setting-with_setting :
    (key : String) (v : Text) (c : Client)
    → trim_space v ≡ v
    → setting key (with_setting key v c).db ≡ v
unfolding settings set_settings assign_all
setting-with_setting key v c h =
    ap (λ o. trim_space (or_empty o)) (lookup-assign key v c.db.settings) ∙ h

first_absolute_lem :
    (ls : List Text) (l : Text)
    → first_absolute ls ≡ some l
    → (trim_space l ≡ l) × (has_prefix l root ≡ true)
unfolding first_absolute
first_absolute_lem [] l h = cc
first_absolute_lem (k ∷ ls) l h = elim (Bool-cases (has_prefix (trim_space k) root)) [
  | inl e ↦
      let same : trim_space k ≡ l = cc (rw e at h) in
      (ap trim_space (sym same) ∙ trim_space_idempotent k ∙ same, rw same at e)
  | inr e ↦ first_absolute_lem ls l (rw e at h)
]

-- What the settings say after a probe that ran.
abbrev pub IsNoted : String → Result Text → Client → Type 0
IsNoted key (ok l) c = setting key c.db ≡ l
IsNoted key (err e) c = setting key c.db ≡ []

-- A path that a probe returned is noted, and is absolute where it is not blank.
abbrev pub Probed : String → Result Text × Client × Issued → Type 0
Probed key x =
    IsNoted key x.0 x.1 × ((l : Text) → x.0 ≡ ok l → (l ≡ []) ⊎ (has_prefix l root ≡ true))

noted-IsNoted :
    (exec : Exec) (key : String) (missing : Result Text) (o : Option Text) (c : Client)
    (issued : Issued)
    → ((l : Text) → o ≡ some l → (trim_space l ≡ l) × (has_prefix l root ≡ true))
    → ((l : Text) → missing ≡ ok l → l ≡ [])
    → Probed key (noted exec key missing o c issued)
unfolding trim_space
noted-IsNoted exec key (ok m) none c issued line blank =
    (setting-with_setting key [] c refl ∙ sym (blank m refl), λ l e. inl (blank l e))
noted-IsNoted exec key (err e) none c issued line blank =
    (setting-with_setting key [] c refl, λ l h. cc)
noted-IsNoted exec key missing (some k) c issued line blank =
    let (trimmed, absolute) = line k refl in
    (setting-with_setting key k c trimmed, λ l e. inr (rw (ok_injective k l e) at absolute))

-- A probe that runs leaves the setting as the path that it returns, which is absolute or, for
-- sshpass, blank; where it finds no lftp it fails, and the setting is blank. A probe that cannot run
-- fails as the command did and leaves the settings as the connection did.
pub probe-IsNoted :
    (exec : Exec) (w : Wire) (c : Client) (issued : Issued)
    → let r = run exec w lftp_probe c issued in
      let x = probe_lftp exec w c issued in
      let q = run exec w sshpass_probe c issued in
      let y = probe_sshpass exec w c issued in
      ((out : Text) → r.0 ≡ ok out → Probed "lftp_path" x)
      × ((e : Error) → r.0 ≡ err e → x ≡ (err e, r.1, r.2))
      × ((out : Text) → q.0 ≡ ok out → Probed "sshpass_path" y)
      × ((e : Error) → q.0 ≡ err e → y ≡ (err e, q.1, q.2))
unfolding probe_lftp probe_sshpass
probe-IsNoted exec w c issued =
    let r = run exec w lftp_probe c issued in
    let q = run exec w sshpass_probe c issued in
    let missing : Result Text = err (external (codes "no working lftp")) in
    (
      λ out e.
          subst (λ z. Probed "lftp_path" (probed exec "lftp_path" missing (z, r.1, r.2))) (sym e)
            (noted-IsNoted exec "lftp_path" missing (first_absolute (split 10 out)) r.1 r.2
              (first_absolute_lem (split 10 out)) (λ l h. cc)),
      λ e h. ap (λ z. probed exec "lftp_path" missing (z, r.1, r.2)) h,
      λ out e.
          subst (λ z. Probed "sshpass_path" (probed exec "sshpass_path" (ok []) (z, q.1, q.2)))
            (sym e)
            (noted-IsNoted exec "sshpass_path" (ok []) (first_absolute (split 10 out)) q.1 q.2
              (first_absolute_lem (split 10 out)) (λ l h. sym (ok_injective [] l h))),
      λ e h. ap (λ z. probed exec "sshpass_path" (ok []) (z, q.1, q.2)) h,
    )
