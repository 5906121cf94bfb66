-- ===== src/Nas/Path/Walking.antt =====
-- The walk up to the nearest ancestor that resolves (internal/nas/path.go).
use sftp_relay.Base.{
  result_cases, ℕ, zero, suc, ◌≤◌, Bool, true, false, Option, some, List, [], ◌∷◌, ◌++◌, length,
  length-append, ◌≡◌, refl, sym, ap, subst, inl, inr, Bool-cases, arith, if◌then◌else◌, Text,
  text_eq, All, Result, ok, err, unresolvable,
}
use sftp_relay.Base.Path.{slash, root, path_of, absolute, dir}
use sftp_relay.Base.Path.Names.{IsName, dir-absolute, dir-root}
use sftp_relay.Nas.Path.{
  Resolver, normalise, clean_roots, accept, walk_up, at_ancestor, resolve_ancestor,
}
use sftp_relay.Nas.Path.Checking.{IsInside, accept-IsInside, err≢ok, some-injective}

length-path_of : (st : List Text) → length st ≤ length (path_of st)
unfolding path_of
length-path_of [] = omega arith
length-path_of (t ∷ st) = omega (arith, length-path_of st, length-append (path_of st) (slash ∷ t))

abbrev Ends : Option (Result Text) → Type 0
Ends o = (r : Result Text) × (o ≡ some r)

if_Ends :
    (b : Bool) (r : Result Text) (o : Option (Result Text))
    → Ends o
    → Ends (if b then some r else o)
if_Ends true r o h = (r, refl)
if_Ends false r o h = h

module _ (nfc : Text → Text) (resolve : Resolver) where
  at_ancestor-Ends :
      (p : Text) (roots : List Text) (cur : Text) (answer : Result Text)
      (next : Option (Result Text))
      → Ends next
      → Ends (at_ancestor nfc p roots cur answer next)
  at_ancestor-Ends p roots cur (ok raw) next h =
      (accept nfc cur raw roots (normalise nfc raw), refl)
  at_ancestor-Ends p roots cur (err e) next h =
      if_Ends (text_eq cur root) (err (unresolvable p e)) next h

  at_root-Ends :
      (p : Text) (roots : List Text) (answer : Result Text) (next : Option (Result Text))
      → Ends (at_ancestor nfc p roots root answer next)
  at_root-Ends p roots (ok raw) next = (accept nfc root raw roots (normalise nfc raw), refl)
  at_root-Ends p roots (err e) next = (err (unresolvable p e), refl)

  pub walk_up-Ends :
      (p : Text) (roots : List Text) (n : ℕ) (st : List Text)
      → All IsName st
      → suc (length st) ≤ n
      → Ends (walk_up nfc resolve p roots n (absolute st))
  unfolding walk_up
  walk_up-Ends p roots zero st h enough = absurd (omega (arith, enough))
  walk_up-Ends p roots (suc n) [] h enough =
      at_root-Ends p roots (resolve root) (walk_up nfc resolve p roots n (dir root))
  walk_up-Ends p roots (suc n) (s ∷ st) (h, hs) enough =
      let cur = absolute (s ∷ st) in
      at_ancestor-Ends p roots cur (resolve cur) (walk_up nfc resolve p roots n (dir cur)) (
        subst (λ q. Ends (walk_up nfc resolve p roots n q)) (sym (dir-absolute s st (h, hs)))
          (walk_up-Ends p roots n st hs (omega (arith, enough))))

  -- The walk from a cleaned path always comes to an answer: it has as many steps as the path has
  -- characters, and each step drops a name.
  pub resolve_ancestor_ends :
      (roots : List Text) (st : List Text)
      → All IsName st
      → (r : Result Text) × (resolve_ancestor nfc (absolute st) roots resolve ≡ some r)
  unfolding resolve_ancestor path_of
  resolve_ancestor_ends roots [] h =
      subst (λ q. Ends (walk_up nfc resolve root roots 1 q)) (sym dir-root)
        (walk_up-Ends root roots 1 [] tt (omega arith))
  resolve_ancestor_ends roots (s ∷ st) h =
      let p = absolute (s ∷ st) in
      subst (λ q. Ends (walk_up nfc resolve p roots (length p) q)) (sym (dir-absolute s st h))
        (walk_up-Ends p roots (length p) st h.1
          (omega (arith, length-path_of st, length-append (path_of st) (slash ∷ s))))

  -- An ancestor of a path, or the path itself, that resolves to a place inside a root.
  pub record IsAncestor (roots : List Text) (st : List Text) (target : Text) : Type 0 where
    pub below : List Text
    pub above : List Text
    pub split : st ≡ below ++ above
    pub answer : Text
    pub resolves : resolve (absolute above) ≡ ok answer
    pub normal : normalise nfc answer ≡ ok target
    pub inside : IsInside nfc roots target

  pub one_below :
      (roots : List Text) (s : Text) (st : List Text) (rc : Text)
      → IsAncestor roots st rc
      → IsAncestor roots (s ∷ st) rc
  one_below roots s st rc i = record {
    below = s ∷ i.below;
    above = i.above;
    split = ap (λ l. s ∷ l) i.split;
    answer = i.answer;
    resolves = i.resolves;
    normal = i.normal;
    inside = i.inside;
  }

  here_it_is :
      (roots : List Text) (st : List Text) (p rc raw : Text)
      → resolve (absolute st) ≡ ok raw
      → accept nfc (absolute st) raw (clean_roots nfc roots) (normalise nfc raw) ≡ ok rc
      → IsAncestor roots st rc
  here_it_is roots st p rc raw found h =
      let a = accept-IsInside nfc roots (absolute st) raw rc h in
      record {
        below = [];
        above = st;
        split = refl;
        answer = raw;
        resolves = found;
        normal = a.0;
        inside = a.1;
      }

  pub walk_up-IsAncestor :
      (p : Text) (roots : List Text) (n : ℕ) (st : List Text) (rc : Text)
      → All IsName st
      → walk_up nfc resolve p (clean_roots nfc roots) n (absolute st) ≡ some (ok rc)
      → IsAncestor roots st rc
  unfolding walk_up
  walk_up-IsAncestor p roots zero st rc h w = cc
  walk_up-IsAncestor p roots (suc n) [] rc h w = elim (result_cases (resolve root)) [
    | inl (raw, found) ↦ here_it_is roots [] p rc raw found (some-injective (rw found at w))
    | inr (e, bad) ↦ absurd (err≢ok (some-injective (rw bad at w)))
  ]
  walk_up-IsAncestor p roots (suc n) (s ∷ st) rc (h, hs) w =
      elim (result_cases (resolve (absolute (s ∷ st)))) [
        | inl (raw, found) ↦
            here_it_is roots (s ∷ st) p rc raw found (some-injective (rw found at w))
        | inr (e, bad) ↦ elim (Bool-cases (text_eq (absolute (s ∷ st)) root)) [
          | inl top ↦ absurd (err≢ok (some-injective (rw (bad, top) at w)))
          | inr below ↦ one_below roots s st rc (
              walk_up-IsAncestor p roots n st rc hs
                (rw (bad, below, dir-absolute s st (h, hs)) at w))
        ]
      ]
