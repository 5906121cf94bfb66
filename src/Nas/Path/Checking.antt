-- ===== src/Nas/Path/Checking.antt =====
-- What `CheckPath` of internal/nas/path.go accepts.
use mathlib.Core.Bool.{false≢true}
use sftp_relay.Base.{
  result_cases, Bool, true, false, Option, none, some, List, [], ◌∷◌, ◌++◌, ◌≡◌, ◌≢◌, refl, sym, ap,
  ◌∙◌, subst, ◌⊎◌, inl, inr, Bool-cases, Text, text_eq, has_prefix, trim_space, All, Error, Result,
  ok, err,
}
use sftp_relay.Base.Path.{root, absolute}
use sftp_relay.Base.Path.Names.{IsName, clean-IsName}
use sftp_relay.Nas.Path.{has_null, contained, is_root_or_below, normalise, clean_roots, accept}
use sftp_relay.Nas.Path.Containment.{is_root_or_below_iff}

abbrev pub IsAmong : Text → List Text → Type 0
IsAmong r [] = ⊥
IsAmong r (s ∷ ss) = (r ≡ s) ⊎ IsAmong r ss

abbrev is_ok : Result Text → Bool
is_ok (ok a) = true
is_ok (err e) = false

pub err≢ok : {e : Error} {a : Text} → ◌≢◌ {A = Result Text} (err e) (ok a)
err≢ok h = false≢true (ap is_ok h)

abbrev value_or : Text → Result Text → Text
value_or d (ok a) = a
value_or d (err e) = d

pub ok-injective : {a b : Text} → ok a ≡ ok b → a ≡ b
ok-injective {a} h = ap (value_or a) h

abbrev result_or : Result Text → Option (Result Text) → Result Text
result_or d none = d
result_or d (some r) = r

pub some-injective : {a b : Result Text} → some a ≡ some b → a ≡ b
some-injective {a} h = ap (result_or a) h

module _ (nfc : Text → Text) where
  -- `p` is an absolute path made of names, of which the first are the names of one of the roots.
  pub record IsInside (roots : List Text) (p : Text) : Type 0 where
    pub base : Text
    pub is_root : IsAmong base roots
    pub base_names : List Text
    pub below : List Text
    pub base_at : normalise nfc base ≡ ok (absolute base_names)
    pub at : p ≡ absolute (below ++ base_names)
    pub plain : All IsName (below ++ base_names)

  pub normalise-IsName :
      (p c : Text) → normalise nfc p ≡ ok c → (st : List Text) × (c ≡ absolute st) × All IsName st
  unfolding normalise
  normalise-IsName p c h = elim (Bool-cases (text_eq (nfc (trim_space p)) [])) [
    | inl e ↦ absurd (err≢ok (rw e at h))
    | inr e ↦ elim (Bool-cases (has_null (nfc (trim_space p)))) [
      | inl n ↦ absurd (err≢ok (rw (e, n) at h))
      | inr n ↦ elim (Bool-cases (has_prefix (nfc (trim_space p)) root)) [
        | inr a ↦ absurd (err≢ok (rw (e, n, a) at h))
        | inl a ↦
            let i = clean-IsName (nfc (trim_space p)) a in
            (i.0, sym (ok-injective (rw (e, n, a) at h)) ∙ i.1, i.2)
      ]
    ]
  ]

  pub IsInside-more :
      (r : Text) (roots : List Text) (p : Text) → IsInside roots p → IsInside (r ∷ roots) p
  IsInside-more r roots p h = record {
    base = h.base;
    is_root = inr h.is_root;
    base_names = h.base_names;
    below = h.below;
    base_at = h.base_at;
    at = h.at;
    plain = h.plain;
  }

  contained-IsInside :
      (roots : List Text) (st : List Text)
      → All IsName st
      → contained (absolute st) (clean_roots nfc roots) ≡ true
      → IsInside roots (absolute st)
  unfolding contained clean_roots
  contained-IsInside [] st h c = absurd (false≢true c)
  contained-IsInside (r ∷ roots) st h c = elim (result_cases (normalise nfc r)) [
    | inr (e, bad) ↦
        IsInside-more r roots (absolute st) (contained-IsInside roots st h (rw bad at c))
    | inl (cr, good) ↦ elim (Bool-cases (is_root_or_below (absolute st) cr)) [
      | inr other ↦
          IsInside-more r roots (absolute st)
            (contained-IsInside roots st h (rw (good, other) at c))
      | inl here ↦
          let n = normalise-IsName r cr good in
          let more =
            (is_root_or_below_iff st n.0 h n.2).0
              (subst (λ q. is_root_or_below (absolute st) q ≡ true) n.1 here) in
          record {
            base = r;
            is_root = inl refl;
            base_names = n.0;
            below = more.0;
            base_at = good ∙ ap ok n.1;
            at = ap absolute more.1;
            plain = subst (All IsName) more.1 h;
          }
    ]
  ]

  pub IsInside-of_normalise :
      (roots : List Text) (p c : Text)
      → normalise nfc p ≡ ok c
      → contained c (clean_roots nfc roots) ≡ true
      → IsInside roots c
  IsInside-of_normalise roots p c n h =
      let i = normalise-IsName p c n in
      subst (IsInside roots) (sym i.1) (
        contained-IsInside roots i.0 i.2
          (subst (λ q. contained q (clean_roots nfc roots) ≡ true) i.1 h))

  pub accept-IsInside :
      (roots : List Text) (cur raw p : Text)
      → accept nfc cur raw (clean_roots nfc roots) (normalise nfc raw) ≡ ok p
      → (normalise nfc raw ≡ ok p) × IsInside roots p
  accept-IsInside roots cur raw p h = elim (result_cases (normalise nfc raw)) [
    | inr (e, bad) ↦ absurd (err≢ok (rw bad at h))
    | inl (rc, good) ↦ elim (Bool-cases (contained rc (clean_roots nfc roots))) [
      | inr out ↦ absurd (err≢ok (rw (good, out) at h))
      | inl in_ ↦
          let same = ok-injective (rw (good, in_) at h) in
          (
            good ∙ ap ok same,
            subst (IsInside roots) same (IsInside-of_normalise roots raw rc good in_),
          )
    ]
  ]
