-- ===== src/Base/Path/Names.antt =====
-- Paths as stacks of names, and what Go's package path does to them.
use Prim.Native.Nat.{ℕ}
use mathlib.Core.Path.{◌≡◌, refl, sym, ap, ◌∙◌}
use mathlib.Core.Bool.{Bool, true, false}
use mathlib.Core.List.{List, [], ◌∷◌, ◌++◌, append_assoc}
use mathlib.Core.Logic.{inl, inr}
use sftp_relay.Base.Tests.{Bool-cases, ◌==◌}
use sftp_relay.Base.Lists.{All}
use sftp_relay.Base.Strings.{Text, text_eq, has_prefix}
use sftp_relay.Base.Path.{
  slash, dot_dot, root, on_first, pieces, is_skipped, back_up, enter, enter_all, path_of, absolute,
  clean, dir_part, dir,
}

abbrev pub IsOther : ℕ → Type 0
IsOther c = (c == slash) ≡ false

-- A name that a cleaned path can hold: not empty, not `.` or `..`, and without a separator.
pub record IsName (s : Text) : Type 0 where
  pub not_skipped : is_skipped s ≡ false
  pub not_back : text_eq s dot_dot ≡ false
  pub no_slash : All IsOther s

pub pieces-name : (s t : Text) → All IsOther s → pieces (s ++ slash ∷ t) ≡ s ∷ pieces t
unfolding pieces
pieces-name [] t h = refl
pieces-name (c ∷ s) t (h, hs) = rw (h, pieces-name s t hs) refl

pub pieces_last : (s : Text) → All IsOther s → pieces s ≡ s ∷ []
unfolding pieces
pieces_last [] h = refl
pieces_last (c ∷ s) (h, hs) = rw (h, pieces_last s hs) refl

pub enter_name : (r : Bool) (s : Text) (st : List Text) → IsName s → enter r s st ≡ s ∷ st
enter_name r s st n = rw (n.not_skipped, n.not_back) refl

-- Cleaning goes through the names of a path and pushes each.
pub enter_all-path_of :
    (r : Bool) (st : List Text) (t : Text)
    → All IsName st
    → enter_all r [] (pieces (path_of st ++ slash ∷ t)) ≡ enter_all r st (pieces t)
unfolding enter_all path_of pieces
enter_all-path_of r [] t h = refl
enter_all-path_of r (s ∷ st) t (h, hs) =
    ap (λ p. enter_all r [] (pieces p)) (append_assoc (path_of st) (slash ∷ s) (slash ∷ t))
    ∙ enter_all-path_of r st (s ++ slash ∷ t) hs
    ∙ ap (enter_all r st) (pieces-name s t h.no_slash)
    ∙ ap (λ x. enter_all r x (pieces t)) (enter_name r s st h)

pub rooted_path : (st : List Text) (t : Text) → has_prefix (path_of st ++ slash ∷ t) root ≡ true
unfolding path_of
rooted_path [] t = refl
rooted_path (s ∷ st) t =
    ap (λ p. has_prefix p root) (append_assoc (path_of st) (slash ∷ s) (slash ∷ t))
    ∙ rooted_path st (s ++ slash ∷ t)

pub clean_from :
    (st : List Text) (t : Text)
    → All IsName st
    → clean (path_of st ++ slash ∷ t) ≡ absolute (enter_all true st (pieces t))
unfolding clean
clean_from st t h = rw (rooted_path st t) (ap absolute (enter_all-path_of true st t h))

-- The names of a path that is made of them.
pub names-absolute :
    (st : List Text) → All IsName st → enter_all true [] (pieces (absolute st)) ≡ st
unfolding path_of enter_all pieces
names-absolute [] h = refl
names-absolute (s ∷ st) (h, hs) =
    enter_all-path_of true st s hs
    ∙ ap (enter_all true st) (pieces_last s h.no_slash)
    ∙ enter_name true s st h

pub rooted-absolute : (st : List Text) → has_prefix (absolute st) root ≡ true
unfolding path_of
rooted-absolute [] = refl
rooted-absolute (s ∷ st) = rooted_path st s

-- A path that is made of names is clean already.
pub clean-absolute : (st : List Text) → All IsName st → clean (absolute st) ≡ absolute st
unfolding clean
clean-absolute st h = rw (rooted-absolute st) (ap absolute (names-absolute st h))

pub absolute-injective :
    (ps rs : List Text) → All IsName ps → All IsName rs → absolute ps ≡ absolute rs → ps ≡ rs
absolute-injective ps rs h k e =
    sym (names-absolute ps h) ∙ ap (λ p. enter_all true [] (pieces p)) e ∙ names-absolute rs k

dir_part_name : (s : Text) → All IsOther s → dir_part s ≡ []
unfolding dir_part
dir_part_name [] h = refl
dir_part_name (c ∷ s) (h, hs) = rw (dir_part_name s hs, h) refl

append_ne : (s : Text) (c : ℕ) (t : Text) → text_eq (s ++ c ∷ t) [] ≡ false
append_ne [] c t = refl
append_ne (d ∷ s) c t = refl

dir_part_append : (p s : Text) → All IsOther s → dir_part (p ++ slash ∷ s) ≡ p ++ slash ∷ []
unfolding dir_part
dir_part_append [] s h = rw (dir_part_name s h) refl
dir_part_append (c ∷ p) s h = rw (dir_part_append p s h, append_ne p slash []) refl

-- The parent of a path is what is left without its last name.
pub dir-absolute :
    (s : Text) (st : List Text) → All IsName (s ∷ st) → dir (absolute (s ∷ st)) ≡ absolute st
unfolding dir path_of enter_all pieces
dir-absolute s st (h, hs) =
    ap clean (dir_part_append (path_of st) s h.no_slash) ∙ clean_from st [] hs

pub dir-root : dir root ≡ root
unfolding dir dir_part clean pieces enter_all
dir-root = refl

on_first-IsOther :
    (c : ℕ) (ss : List Text) → IsOther c → All (All IsOther) ss → All (All IsOther) (on_first c ss)
on_first-IsOther c [] o h = ((o, tt), tt)
on_first-IsOther c (s ∷ ss) o (h, hs) = ((o, h), hs)

back_up-IsName : (st : List Text) → All IsName st → All IsName (back_up true st)
back_up-IsName [] h = tt
back_up-IsName (s ∷ st) (h, hs) = rw (h.not_back) hs

pub pieces-IsOther : (p : Text) → All (All IsOther) (pieces p)
unfolding pieces
pieces-IsOther [] = (tt, tt)
pieces-IsOther (c ∷ p) = elim (Bool-cases (c == slash)) [
  | inl e ↦ rw e (tt, pieces-IsOther p)
  | inr e ↦ rw e (on_first-IsOther c (pieces p) e (pieces-IsOther p))
]

enter-IsName :
    (s : Text) (st : List Text) → All IsOther s → All IsName st → All IsName (enter true s st)
enter-IsName s st o h = elim (Bool-cases (is_skipped s)) [
  | inl e ↦ rw e h
  | inr e ↦ elim (Bool-cases (text_eq s dot_dot)) [
    | inl b ↦ rw (e, b) (back_up-IsName st h)
    | inr b ↦ rw (e, b) (record { not_skipped = e; not_back = b; no_slash = o }, h)
  ]
]

pub enter_all-IsName :
    (ss st : List Text) → All (All IsOther) ss → All IsName st → All IsName (enter_all true st ss)
unfolding enter_all
enter_all-IsName [] st o h = h
enter_all-IsName (s ∷ ss) st (o, os) h =
    enter_all-IsName ss (enter true s st) os (enter-IsName s st o h)

-- Cleaning an absolute path leaves an absolute path made of names, so one without `.` and `..`.
pub clean-IsName :
    (p : Text)
    → has_prefix p root ≡ true
    → (st : List Text) × (clean p ≡ absolute st) × All IsName st
unfolding clean
clean-IsName p h =
    (enter_all true [] (pieces p), rw h refl, enter_all-IsName (pieces p) [] (pieces-IsOther p) tt)

-- Cleaning an absolute path a second time changes nothing.
pub clean-clean : (p : Text) → has_prefix p root ≡ true → clean (clean p) ≡ clean p
clean-clean p h = let c = clean-IsName p h in ap clean c.1 ∙ clean-absolute c.0 c.2 ∙ sym c.1
