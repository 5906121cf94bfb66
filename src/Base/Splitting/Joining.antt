-- ===== src/Base/Splitting/Joining.antt =====
-- path.Join with one more name.
use mathlib.Core.Path.{◌≡◌, refl, ap, sym, ◌∙◌}
use mathlib.Core.Logic.{inl, inr}
use mathlib.Core.Bool.{Bool, true}
use mathlib.Core.List.{List, [], ◌∷◌, ◌++◌}
use Prim.Native.Nat.{ℕ}
use sftp_relay.Base.Tests.{Bool-cases, ◌==◌}
use sftp_relay.Base.Lists.{All}
use sftp_relay.Base.Strings.{Text, has_prefix}
use sftp_relay.Base.Path.{slash, root, on_first, pieces, enter, enter_all, absolute, clean}
use sftp_relay.Base.Path.Names.{
  IsName, IsOther, pieces_last, pieces-IsOther, enter_all-IsName, absolute-injective, enter_name,
}
use sftp_relay.Base.Splitting.{join}

pieces-cons : (p : Text) → (t : Text) × (ts : List Text) × (pieces p ≡ t ∷ ts)
unfolding pieces
pieces-cons [] = ([], [], refl)
pieces-cons (c ∷ p) = elim (Bool-cases (c == slash)) [
  | inl e ↦ ([], pieces p, rw e refl)
  | inr e ↦ let (t, ts, q) = pieces-cons p in (c ∷ t, ts, rw (e, q) refl)
]

on_first_append :
    (c : ℕ) (p : Text) (xs : List Text) → on_first c (pieces p ++ xs) ≡ on_first c (pieces p) ++ xs
on_first_append c p xs = let (t, ts, e) = pieces-cons p in rw e refl

pieces-append : (p s : Text) → All IsOther s → pieces (p ++ slash ∷ s) ≡ pieces p ++ s ∷ []
unfolding pieces
pieces-append [] s h = rw (pieces_last s h) refl
pieces-append (c ∷ p) s h = elim (Bool-cases (c == slash)) [
  | inl e ↦ rw (e, pieces-append p s h) refl
  | inr e ↦ rw (e, pieces-append p s h) (on_first_append c p (s ∷ []))
]

enter_all-append :
    (r : Bool) (st xs ys : List Text)
    → enter_all r st (xs ++ ys) ≡ enter_all r (enter_all r st xs) ys
unfolding enter_all
enter_all-append r st [] ys = refl
enter_all-append r st (x ∷ xs) ys = enter_all-append r (enter r x st) xs ys

has_prefix_more : (p t : Text) → has_prefix p root ≡ true → has_prefix (p ++ t) root ≡ true
has_prefix_more [] t h = cc
has_prefix_more (c ∷ p) t h = h

-- The stack of names of an absolute path, with one more name on it.
pub join-IsName :
    (p s : Text)
    → has_prefix p root ≡ true
    → IsName s
    → (st : List Text) × (clean p ≡ absolute st) × All IsName st × (join p s ≡ absolute (s ∷ st))
unfolding join clean
join-IsName [] s h n = cc
join-IsName (c ∷ p) [] h n = cc (n.not_skipped)
join-IsName (c ∷ p) (d ∷ s) h n =
    let st = enter_all true [] (pieces (c ∷ p)) in
    (
      st,
      rw h refl,
      enter_all-IsName (pieces (c ∷ p)) [] (pieces-IsOther (c ∷ p)) tt,
      rw (has_prefix_more (c ∷ p) (slash ∷ d ∷ s) h) (
          ap absolute (
            ap (enter_all true []) (pieces-append (c ∷ p) (d ∷ s) n.no_slash)
            ∙ enter_all-append true [] (pieces (c ∷ p)) ((d ∷ s) ∷ [])
            ∙ enter_name true (d ∷ s) st n)),
    )

-- Two names below one path are told apart by the joined paths.
pub join-injective :
    (p s t : Text) → has_prefix p root ≡ true → IsName s → IsName t → join p s ≡ join p t → s ≡ t
join-injective p s t h m n e =
    let (st, c, hs, a) = join-IsName p s h m in
    let (st', c', hs', b) = join-IsName p t h n in
    cc (absolute-injective (s ∷ st) (t ∷ st') (m, hs) (n, hs') (sym a ∙ e ∙ b))
