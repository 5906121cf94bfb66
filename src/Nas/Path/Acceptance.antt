-- ===== src/Nas/Path/Acceptance.antt =====
-- The answers of `CheckPath` (internal/nas/path.go).
use mathlib.Core.Bool.{false≢true}
use sftp_relay.Base.{
  result_cases, length, Bool, true, false, Option, none, some, List, [], ◌∷◌, ◌++◌, ◌≡◌, ◌≢◌,
  if◌then◌else◌, refl, sym, ap, ◌∙◌, subst, inl, inr, Bool-cases, Text, All, Error, Result, ok, err,
  no_roots, outside_roots,
}
use sftp_relay.Base.Path.{root, absolute}
use sftp_relay.Base.Path.Names.{IsName, dir-absolute, dir-root}
use sftp_relay.Nas.Path.{
  Resolver, contained, is_root_or_below, normalise, clean_roots, accept, resolve_ancestor, or_clean,
  check_path, resolve_with, resolved, is_empty,
}
use sftp_relay.Nas.Path.Containment.{is_root_or_below_iff}
use sftp_relay.Nas.Path.Checking.{
  IsAmong, IsInside, err≢ok, ok-injective, some-injective, accept-IsInside, normalise-IsName,
  IsInside-of_normalise,
}
use sftp_relay.Nas.Path.Walking.{IsAncestor, resolve_ancestor_ends, walk_up-IsAncestor, one_below}

or_clean_ok :
    (c r : Text) (o : Option (Result Text))
    → or_clean c o ≡ some (ok r)
    → (c ≡ r) × ((rc : Text) × (o ≡ some (ok rc)))
or_clean_ok c r none h = cc
or_clean_ok c r (some (err e)) h = absurd (err≢ok (some-injective h))
or_clean_ok c r (some (ok rc)) h = (ok-injective (some-injective h), (rc, refl))

All-drop : (xs ys : List Text) → All IsName (xs ++ ys) → All IsName ys
All-drop [] ys h = h
All-drop (x ∷ xs) ys (h, hs) = All-drop xs ys hs

none_ne : (r : Result Text) → none ≢ some r
none_ne r h = cc

or_clean_ends :
    (c : Text) (o : Option (Result Text))
    → (r : Result Text) × (o ≡ some r)
    → (r : Result Text) × (or_clean c o ≡ some r)
or_clean_ends c none h = absurd (none_ne h.0 h.1)
or_clean_ends c (some (err e)) h = (err e, refl)
or_clean_ends c (some (ok rc)) h = (ok c, refl)

module _ (nfc : Text → Text) where
  resolved-IsInside :
      (roots : List Text) (resolve : Resolver) (c r : Text)
      → IsInside nfc roots c
      → resolved nfc c (clean_roots nfc roots) resolve (resolve c) ≡ some (ok r)
      → IsInside nfc roots r
  resolved-IsInside roots resolve c r inside h = elim (result_cases (resolve c)) [
    | inl (raw, good) ↦ (accept-IsInside nfc roots c raw r (some-injective (rw good at h))).1
    | inr (e, bad) ↦
        subst (IsInside nfc roots)
          (or_clean_ok c r (resolve_ancestor nfc c (clean_roots nfc roots) resolve) (rw bad at h)).0
          inside
  ]

  resolve_with-IsInside :
      (roots : List Text) (resolve : Option Resolver) (c r : Text)
      → IsInside nfc roots c
      → resolve_with nfc c (clean_roots nfc roots) resolve ≡ some (ok r)
      → IsInside nfc roots r
  resolve_with-IsInside roots none c r inside h =
      subst (IsInside nfc roots) (ok-injective (some-injective h)) inside
  resolve_with-IsInside roots (some resolve) c r inside h =
      resolved-IsInside roots resolve c r inside h

  -- What the tests before the resolver say of a path that was accepted.
  passed_tests :
      (p : Text) (roots : List Text) (resolve : Option Resolver) (r : Text)
      → check_path nfc p roots resolve ≡ some (ok r)
      → (c : Text) × (normalise nfc p ≡ ok c)
        × (contained c (clean_roots nfc roots) ≡ true)
        × (resolve_with nfc c (clean_roots nfc roots) resolve ≡ some (ok r))
  unfolding check_path
  passed_tests p roots resolve r h = elim (result_cases (normalise nfc p)) [
    | inr (e, bad) ↦ absurd (err≢ok (some-injective (rw bad at h)))
    | inl (c, good) ↦ elim (Bool-cases (is_empty (clean_roots nfc roots))) [
      | inl e ↦ absurd (err≢ok (some-injective (rw (good, e) at h)))
      | inr e ↦ elim (Bool-cases (contained c (clean_roots nfc roots))) [
        | inr out ↦ absurd (err≢ok (some-injective (rw (good, e, out) at h)))
        | inl in_ ↦ (c, good, in_, rw (good, e, in_) at h)
      ]
    ]
  ]

  passed_with :
      (p : Text) (roots : List Text) (resolve : Option Resolver) (c r : Text)
      → normalise nfc p ≡ ok c
      → check_path nfc p roots resolve ≡ some (ok r)
      → resolve_with nfc c (clean_roots nfc roots) resolve ≡ some (ok r)
  passed_with p roots resolve c r n h =
      let t = passed_tests p roots resolve r h in
      subst (λ q. resolve_with nfc q (clean_roots nfc roots) resolve ≡ some (ok r))
        (ok-injective (sym t.1 ∙ n)) t.3

  -- A path that is accepted, with or without a resolver, is absolute, holds no `.` or `..` and no empty
  -- name, and starts with all the names of one of the allowed roots, itself cleaned.
  pub check_path-IsInside :
      (p : Text) (roots : List Text) (resolve : Option Resolver) (r : Text)
      → check_path nfc p roots resolve ≡ some (ok r)
      → IsInside nfc roots r
  check_path-IsInside p roots resolve r h =
      let t = passed_tests p roots resolve r h in
      resolve_with-IsInside roots resolve t.0 r (IsInside-of_normalise nfc roots p t.0 t.1 t.2) t.3

  resolved_ends :
      (roots : List Text) (resolve : Option Resolver) (st : List Text)
      → All IsName st
      → (r : Result Text) × (resolve_with nfc (absolute st) roots resolve ≡ some r)
  resolved_ends roots none st h = (ok (absolute st), refl)
  resolved_ends roots (some resolve) st h = elim (result_cases (resolve (absolute st))) [
    | inl (raw, good) ↦ (accept nfc (absolute st) raw roots (normalise nfc raw), rw good refl)
    | inr (e, bad) ↦
        let o =
          or_clean_ends (absolute st) (resolve_ancestor nfc (absolute st) roots resolve)
            (resolve_ancestor_ends nfc resolve roots st h) in
        (o.0, rw bad o.1)
  ]

  -- Whatever the resolver answers, the check comes to a decision: the walk up the ancestors never runs
  -- out of steps.
  pub check_path_ends :
      (p : Text) (roots : List Text) (resolve : Option Resolver)
      → (r : Result Text) × (check_path nfc p roots resolve ≡ some r)
  unfolding check_path
  check_path_ends p roots resolve = elim (result_cases (normalise nfc p)) [
    | inr (e, bad) ↦ (err e, rw bad refl)
    | inl (c, good) ↦ elim (Bool-cases (is_empty (clean_roots nfc roots))) [
      | inl e ↦ (err no_roots, rw (good, e) refl)
      | inr e ↦ elim (Bool-cases (contained c (clean_roots nfc roots))) [
        | inr out ↦ (err (outside_roots c), rw (good, e, out) refl)
        | inl in_ ↦
            let i = normalise-IsName nfc p c good in
            let o = resolved_ends (clean_roots nfc roots) resolve i.0 i.2 in
            (
              o.0,
              rw (good, e, in_)
                  (ap (λ q. resolve_with nfc q (clean_roots nfc roots) resolve) i.1 ∙ o.1),
            )
      ]
    ]
  ]

  -- A path that the resolver follows is accepted only as what it resolves to, normalised: a link that
  -- leads out of the roots is never accepted.
  pub check_path_resolved :
      (p : Text) (roots : List Text) (resolve : Resolver) (c raw r : Text)
      → normalise nfc p ≡ ok c
      → resolve c ≡ ok raw
      → check_path nfc p roots (some resolve) ≡ some (ok r)
      → (normalise nfc raw ≡ ok r) × IsInside nfc roots r
  check_path_resolved p roots resolve c raw r n found h =
      let w = passed_with p roots (some resolve) c r n h in
      accept-IsInside nfc roots c raw r (some-injective (rw found at w))

  parent-IsAncestor :
      (roots : List Text) (resolve : Resolver) (st : List Text) (rc : Text)
      → All IsName st
      → resolve_ancestor nfc (absolute st) (clean_roots nfc roots) resolve ≡ some (ok rc)
      → IsAncestor nfc resolve roots st rc
  unfolding resolve_ancestor
  parent-IsAncestor roots resolve [] rc h w =
      walk_up-IsAncestor nfc resolve root roots 1 [] rc tt (rw dir-root at w)
  parent-IsAncestor roots resolve (s ∷ st) rc h w = one_below nfc resolve roots s st rc (
      walk_up-IsAncestor nfc resolve (absolute (s ∷ st)) roots (length (absolute (s ∷ st))) st rc
        h.1 (rw (dir-absolute s st h) at w))

  -- A path that the resolver cannot follow is accepted as it is, and only if one of its ancestors
  -- resolves to a place inside a root.
  pub check_path_unresolved :
      (p : Text) (roots : List Text) (resolve : Resolver) (st : List Text) (e : Error) (r : Text)
      → normalise nfc p ≡ ok (absolute st)
      → All IsName st
      → resolve (absolute st) ≡ err e
      → check_path nfc p roots (some resolve) ≡ some (ok r)
      → (r ≡ absolute st) × ((target : Text) × IsAncestor nfc resolve roots st target)
  check_path_unresolved p roots resolve st e r n h bad w =
      let passed = passed_with p roots (some resolve) (absolute st) r n w in
      let above = resolve_ancestor nfc (absolute st) (clean_roots nfc roots) resolve in
      let o = or_clean_ok (absolute st) r above (rw bad at passed) in
      (sym o.0, (o.1.0, parent-IsAncestor roots resolve st o.1.0 h o.1.1))

  contained_or : (b r : Bool) → r ≡ true → (if b then true else r) ≡ true
  contained_or true r h = refl
  contained_or false r h = h

  contained_below :
      (roots : List Text) (base : Text) (bn below : List Text)
      → IsAmong base roots
      → normalise nfc base ≡ ok (absolute bn)
      → All IsName (below ++ bn)
      → All IsName bn
      → contained (absolute (below ++ bn)) (clean_roots nfc roots) ≡ true
  unfolding contained clean_roots
  contained_below [] base bn below i good h k = absurd i
  contained_below (r ∷ roots) base bn below (inl e) good h k =
      rw (← e, good)
        (ap (λ b. if b then true else contained (absolute (below ++ bn)) (clean_roots nfc roots))
          ((is_root_or_below_iff (below ++ bn) bn h k).1 (below, refl)))
  contained_below (r ∷ roots) base bn below (inr i) good h k =
      let rest = contained_below roots base bn below i good h k in
      elim (result_cases (normalise nfc r)) [
        | inr (e, bad) ↦ rw bad rest
        | inl (c, ok_) ↦ rw ok_ (contained_or (is_root_or_below (absolute (below ++ bn)) c) _ rest)
      ]

  not_empty : (p : Text) (roots : List Text) → contained p roots ≡ true → is_empty roots ≡ false
  unfolding contained
  not_empty p [] h = absurd (false≢true h)
  not_empty p (r ∷ roots) h = refl

  -- Without a resolver the check accepts every path that lies inside a root, as its cleaned form.
  pub check_path_accepts :
      (p c : Text) (roots : List Text)
      → normalise nfc p ≡ ok c
      → IsInside nfc roots c
      → check_path nfc p roots none ≡ some (ok c)
  unfolding check_path
  check_path_accepts p c roots n i =
      let in_ =
        contained_below roots i.base i.base_names i.below i.is_root i.base_at i.plain
          (All-drop i.below i.base_names i.plain) in
      let inside = ap (λ q. contained q (clean_roots nfc roots)) i.at ∙ in_ in
      rw (n, not_empty c (clean_roots nfc roots) inside, inside) refl
