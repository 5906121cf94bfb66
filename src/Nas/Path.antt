-- ===== src/Nas/Path.antt =====
-- internal/nas/path.go: which destinations a job may have. Unicode normalisation and the resolver
-- that follows symbolic links are parameters.
pub mod Containment
pub mod Checking
pub mod Walking
pub mod Acceptance
use sftp_relay.Base.{
  ℕ, zero, suc, Bool, true, false, not, ◌||◌, ◌++◌, Option, none, some, List, [], ◌∷◌, length, ◌==◌,
  if◌then◌else◌, Text, text_eq, has_prefix, trim_space, Error, empty_path, null_byte, not_absolute,
  no_roots, outside_roots, resolves_outside, unusable_path, unresolvable, Result, ok, err,
}
use sftp_relay.Base.Path.{slash, root, clean, dir, trim_slash}

-- Follows the links of a path on the NAS.
abbrev pub Resolver : Type 0
Resolver = Text → Result Text

-- strings.ContainsRune(p, 0)
abbrev pub has_null : Text → Bool
has_null [] = false
has_null (c ∷ s) = let rest = has_null s in c == 0 || rest

abbrev pub is_root_or_below : Text → Text → Bool
is_root_or_below p r = text_eq p r || has_prefix p (trim_slash r ++ slash ∷ [])

unfoldable pub contained : Text → List Text → Bool
contained p [] = false
contained p (r ∷ rs) = let rest = contained p rs in if is_root_or_below p r then true else rest

-- A root that is blank or relative is left out.
abbrev pub with_root : Result Text → List Text → List Text
with_root (ok r) rs = r ∷ rs
with_root (err e) rs = rs

-- The ancestor that was found is only checked: the path itself is the answer.
abbrev pub or_clean : Text → Option (Result Text) → Option (Result Text)
or_clean cleaned none = none
or_clean cleaned (some (err e)) = some (err e)
or_clean cleaned (some (ok rc)) = some (ok cleaned)

abbrev pub is_empty : List Text → Bool
is_empty [] = true
is_empty (r ∷ rs) = false

module _ (nfc : Text → Text) where
  unfoldable pub normalise : Text → Result Text
  normalise p =
      let q = nfc (trim_space p) in
      if text_eq q []
      then err empty_path
      else if has_null q
      then err null_byte
      else if not (has_prefix q root)
      then err (not_absolute q)
      else ok (clean q)

  unfoldable pub clean_roots : List Text → List Text
  unfolding normalise
  clean_roots [] = []
  clean_roots (r ∷ rs) = with_root (normalise r) (clean_roots rs)

  -- What becomes of a path whose resolved form, normalised, is given.
  abbrev pub accept : Text → Text → List Text → Result Text → Result Text
  accept cur raw roots (err e) = err (unusable_path raw e)
  accept cur raw roots (ok rc) = if contained rc roots then ok rc else err (resolves_outside cur rc)

  abbrev pub at_ancestor :
      Text → List Text → Text → Result Text → Option (Result Text) → Option (Result Text)
  at_ancestor p roots cur (ok raw) next = some (accept cur raw roots (normalise raw))
  at_ancestor p roots cur (err e) next =
      if text_eq cur root then some (err (unresolvable p e)) else next

  -- The loop, with `none` where the fuel runs out.
  unfoldable pub walk_up : Resolver → Text → List Text → ℕ → Text → Option (Result Text)
  unfolding normalise
  walk_up resolve p roots zero cur = none
  walk_up resolve p roots (suc n) cur =
      at_ancestor p roots cur (resolve cur) (walk_up resolve p roots n (dir cur))

  unfoldable pub resolve_ancestor : Text → List Text → Resolver → Option (Result Text)
  unfolding walk_up
  resolve_ancestor p roots resolve = walk_up resolve p roots (length p) (dir p)

  abbrev pub resolved : Text → List Text → Resolver → Result Text → Option (Result Text)
  resolved cleaned roots resolve (err e) = or_clean cleaned (resolve_ancestor cleaned roots resolve)
  resolved cleaned roots resolve (ok raw) = some (accept cleaned raw roots (normalise raw))

  abbrev pub resolve_with : Text → List Text → Option Resolver → Option (Result Text)
  resolve_with cleaned roots none = some (ok cleaned)
  resolve_with cleaned roots (some resolve) = resolved cleaned roots resolve (resolve cleaned)

  abbrev pub check_clean : Result Text → List Text → Option Resolver → Option (Result Text)
  check_clean (err e) roots resolve = some (err e)
  check_clean (ok cleaned) roots resolve =
      if is_empty roots
      then some (err no_roots)
      else if not (contained cleaned roots)
      then some (err (outside_roots cleaned))
      else resolve_with cleaned roots resolve

  unfoldable pub check_path : Text → List Text → Option Resolver → Option (Result Text)
  unfolding normalise clean_roots resolve_ancestor
  check_path p roots resolve = check_clean (normalise p) (clean_roots roots) resolve
