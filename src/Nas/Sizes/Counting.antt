-- ===== src/Nas/Sizes/Counting.antt =====
-- What `Size` counts on the NAS (internal/nas/lftp.go).
use sftp_relay.Base.{
  Text, List, [], ◌∷◌, Bool, true, false, if◌then◌else◌, ◌≡◌, refl, sym, ap, ◌∙◌, Error, Result, ok,
  err, ok_injective, Bool-cases, ◌⊎◌, inl, inr,
}
use sftp_relay.Base.Int.{ℤ, pos}
use sftp_relay.Base.Files.{Info, Visit, visited, unreadable, cancelled, added_size}
use sftp_relay.Nas.Client.{Session, Client, Wire, with_session}
use sftp_relay.Nas.Client.Retrying.{with_session_ok}
use sftp_relay.Nas.Sizes.{Files, unfinished, walked, or_unfinished, counted, size_on, sized, size}

-- The bytes of the files among the steps of a walk.
abbrev pub bytes_of : List Visit → ℤ → ℤ
bytes_of [] total = total
bytes_of (visited fi ∷ vs) total = bytes_of vs (added_size fi total)
bytes_of (unreadable e ∷ vs) total = bytes_of vs total
bytes_of (cancelled e ∷ vs) total = bytes_of vs total

walked_ok : (vs : List Visit) (total n : ℤ) → walked vs total ≡ (ok tt, n) → n ≡ bytes_of vs total
unfolding walked
walked_ok [] total n h = sym (ap (λ x. x.1) h)
walked_ok (visited fi ∷ vs) total n h = walked_ok vs (added_size fi total) n h
walked_ok (unreadable e ∷ vs) total n h = walked_ok vs total n h
walked_ok (cancelled e ∷ vs) total n h = cc (ap (λ x. x.0) h)

module _ (is_missing is_broken : Error → Bool) (files : Session → Files) where
  -- A path that is there, or that cannot be looked at.
  abbrev pub Exists : Result Info → Type 0
  Exists (ok fi) = Unit
  Exists (err e) = is_missing e ≡ false

  -- What stands for a path on a session: itself, or the file that lftp has not finished.
  abbrev pub Stands : Text → Session → Result Info → Type 0
  Stands p s r =
      let f = files s in
      ((f.stat p ≡ r) × Exists r)
      ⊎ ((e : Error) × (f.stat p ≡ err e) × (is_missing e ≡ true) × (f.stat (unfinished p) ≡ r))

  -- The bytes of a path on a session.
  abbrev pub Holds : Text → Session → ℤ → Result Info → Type 0
  Holds p s n (err e) = (is_missing e ≡ true) × (n ≡ pos 0)
  Holds p s n (ok fi) = n ≡ (if fi.is_dir then bytes_of ((files s).walk p) (pos 0) else fi.size)

  counted_ok :
      (p : Text) (s : Session) (r : Result Info) (n : ℤ)
      → counted is_missing is_broken files (files s) p r ≡ (ok tt, n)
      → Holds p s n r
  counted_ok p s (err e) n h = elim (Bool-cases (is_missing e)) [
    | inl m ↦ (m, sym (ap (λ x. x.1) (rw m at h)))
    | inr m ↦ cc (ap (λ x. x.0) (rw m at h))
  ]
  counted_ok p s (ok fi) n h = elim (Bool-cases fi.is_dir) [
    | inl d ↦ rw d (walked_ok ((files s).walk p) (pos 0) n (rw d at h))
    | inr d ↦ rw d (sym (ap (λ x. x.1) (rw d at h)))
  ]

  or_unfinished-Stands :
      (p : Text) (s : Session) (r : Result Info)
      → (files s).stat p ≡ r
      → Stands p s (or_unfinished is_missing is_broken files (files s) p r)
  or_unfinished-Stands p s (ok fi) h = inl (h, tt)
  or_unfinished-Stands p s (err e) h = elim (Bool-cases (is_missing e)) [
    | inl m ↦ rw m (inr (e, h, m, refl))
    | inr m ↦ rw m (inl (h, m))
  ]

  sized_ok :
      (x : Result (Unit {0}) × Client × ℤ) (n : ℤ) (c' : Client)
      → sized is_missing is_broken files x ≡ (ok n, c')
      → x ≡ (ok tt, c', n)
  sized_ok (err e, c, t) n c' h = cc (ap (λ y. y.0) h)
  sized_ok (ok u, c, t) n c' h =
      let done : Result (Unit {0}) = ok tt in
      ap (λ q. (done, q, t)) (ap (λ y. y.1) h)
      ∙ ap (λ q. (done, c', q)) (ok_injective t n (ap (λ y. y.0) h))

  -- A size that is returned is that of one attempt, on one session, however often the connection broke
  -- before: of the file, or of all files that the walk of a directory could read; nothing, if neither
  -- the path nor its unfinished form exists.
  pub size_counts_once :
      (p : Text) (w w' : Wire) (c : Client) (n : ℤ) (c' : Client)
      → size is_missing is_broken files p w w' c ≡ (ok n, c')
      → (s : Session) × (r : Result Info) × Stands p s r × Holds p s n r
  unfolding size
  size_counts_once p w w' c n c' h =
      let (s, t, _, ran) =
        with_session_ok is_broken (size_on is_missing is_broken files p) (λ r. Unit) (λ s r u. tt) w
          w' c (pos 0) tt c' n tt
          (sized_ok (with_session is_broken (size_on is_missing is_broken files p) w w' c (pos 0)) n
            c' h) in
      let r = or_unfinished is_missing is_broken files (files s) p ((files s).stat p) in
      (s, r, or_unfinished-Stands p s ((files s).stat p) refl, counted_ok p s r n ran)
