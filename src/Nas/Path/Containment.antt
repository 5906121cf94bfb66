-- ===== src/Nas/Path/Containment.antt =====
-- What `contained` of internal/nas/path.go means for the names of a path.
use mathlib.Core.List.{append_cancel_right}
use mathlib.Core.Bool.{false≢true}
use sftp_relay.Base.{
  ℕ, Bool, true, false, ◌||◌, List, [], ◌∷◌, ◌++◌, append_assoc, append-nil, ◌≡◌, refl, sym, ap,
  ◌∙◌, ◌==◌, ==_iff, Text, text_eq, text_eq_iff, has_prefix, All, Bool-cases, inl, inr, arith, ◌↔◌,
  subst, length, length-append, length, length-append,
}
use sftp_relay.Base.Path.{slash, root, pieces, path_of, absolute, trim_slash}
use sftp_relay.Base.Path.Names.{IsName, IsOther, pieces-name, pieces_last, absolute-injective}
use sftp_relay.Nas.Path.{is_root_or_below}

-- The pieces on a stack, the last on top.
abbrev push_all : List Text → List Text → List Text
push_all st [] = st
push_all st (s ∷ ss) = push_all (s ∷ st) ss

push_all-append : (st ss : List Text) → push_all st ss ≡ push_all [] ss ++ st
push_all-append st [] = refl
push_all-append st (s ∷ ss) =
    push_all-append (s ∷ st) ss
    ∙ sym (append_assoc (push_all [] ss) (s ∷ []) st)
    ∙ ap (λ l. l ++ st) (sym (push_all-append (s ∷ []) ss))

-- Reading a path back gives its names, above the empty piece before the first separator.
push_all-path_of :
    (st : List Text) (t : Text)
    → All IsName st
    → push_all [] (pieces (path_of st ++ slash ∷ t)) ≡ push_all (st ++ [] ∷ []) (pieces t)
unfolding path_of pieces
push_all-path_of [] t h = refl
push_all-path_of (s ∷ st) t (h, hs) =
    ap (λ p. push_all [] (pieces p)) (append_assoc (path_of st) (slash ∷ s) (slash ∷ t))
    ∙ push_all-path_of st (s ++ slash ∷ t) hs
    ∙ ap (push_all (st ++ [] ∷ [])) (pieces-name s t h.no_slash)

-- A path that continues another path with a separator holds its names.
names_of_prefix :
    (s : Text) (ps rs : List Text) (t : Text)
    → All IsName (s ∷ ps)
    → All IsName rs
    → path_of (s ∷ ps) ≡ path_of rs ++ slash ∷ t
    → s ∷ ps ≡ push_all [] (pieces t) ++ rs
unfolding path_of
names_of_prefix s ps rs t (h, hs) hr e =
    append_cancel_right (s ∷ ps) (push_all [] (pieces t) ++ rs) ([] ∷ []) (
      sym (ap (push_all (ps ++ [] ∷ [])) (pieces_last s h.no_slash))
      ∙ sym (push_all-path_of ps s hs)
      ∙ ap (λ p. push_all [] (pieces p)) e
      ∙ push_all-path_of rs t hr
      ∙ push_all-append (rs ++ [] ∷ []) (pieces t)
      ∙ sym (append_assoc (push_all [] (pieces t)) rs ([] ∷ [])))

prefix_rest : (p q : Text) → has_prefix p q ≡ true → (t : Text) × (p ≡ q ++ t)
prefix_rest p [] h = (p, refl)
prefix_rest [] (c ∷ q) h = cc
prefix_rest (d ∷ p) (c ∷ q) h = elim (Bool-cases (d == c)) [
  | inl e ↦
      let r = prefix_rest p q (rw e at h) in
      (r.0, ap (λ x. x ∷ p) ((==_iff d c).0 e) ∙ ap (λ x. c ∷ x) r.1)
  | inr e ↦ absurd (false≢true (rw e at h))
]

has_prefix-append : (p t : Text) → has_prefix (p ++ t) p ≡ true
has_prefix-append [] t = refl
has_prefix-append (c ∷ p) t = ground (arith, has_prefix-append p t)

trim_other : (c : ℕ) (s : Text) → All IsOther (c ∷ s) → trim_slash (c ∷ s) ≡ c ∷ s
unfolding trim_slash
trim_other c [] (h, hs) = rw h refl
trim_other c (d ∷ s) (h, hs) = ap (λ x. c ∷ x) (trim_other d s hs)

trim_append :
    (p : Text) (c : ℕ) (s : Text) → All IsOther (c ∷ s) → trim_slash (p ++ c ∷ s) ≡ p ++ c ∷ s
unfolding trim_slash
trim_append [] c s h = trim_other c s h
trim_append (d ∷ []) c s h = ap (λ x. d ∷ x) (trim_other c s h)
trim_append (d ∷ e ∷ p) c s h = ap (λ x. d ∷ x) (trim_append (e ∷ p) c s h)

trim_name : (s : Text) (p : Text) → IsName s → trim_slash (p ++ slash ∷ s) ≡ p ++ slash ∷ s
trim_name [] p h = absurd (false≢true (sym h.not_skipped))
trim_name (c ∷ s) p h =
    ap trim_slash (sym (append_assoc p (slash ∷ []) (c ∷ s)))
    ∙ trim_append (p ++ slash ∷ []) c s h.no_slash
    ∙ append_assoc p (slash ∷ []) (c ∷ s)

trim_slash-absolute : (rs : List Text) → All IsName rs → trim_slash (absolute rs) ≡ path_of rs
unfolding path_of trim_slash
trim_slash-absolute [] h = refl
trim_slash-absolute (r ∷ rs) (h, hs) = trim_name r (path_of rs) h

too_short :
    (r : Text) (rs : List Text) (t : Text) → root ≡ path_of (r ∷ rs) ++ slash ∷ t → (r ∷ rs) ≡ []
unfolding path_of
too_short r rs t e = absurd (
    omega (
      arith,
      ap (length {0} {A = ℕ}) e,
      length-append (path_of rs ++ slash ∷ r) (slash ∷ t),
      length-append (path_of rs) (slash ∷ r),
    ))

-- The names below a root, of a path that continues it.
below_root :
    (ps rs : List Text) (t : Text)
    → All IsName ps
    → All IsName rs
    → absolute ps ≡ path_of rs ++ slash ∷ t
    → (more : List Text) × (ps ≡ more ++ rs)
below_root ps [] t h k e = (ps, sym (append-nil ps))
below_root [] (r ∷ rs) t h k e = ([], sym (too_short r rs t e))
below_root (s ∷ ps) (r ∷ rs) t h k e =
    (push_all [] (pieces t), names_of_prefix s ps (r ∷ rs) t h k e)

path_of-above :
    (more rs : List Text) (t : Text)
    → has_prefix (path_of (more ++ rs) ++ slash ∷ t) (path_of rs ++ slash ∷ []) ≡ true
unfolding path_of
path_of-above [] rs t =
    ap (λ p. has_prefix p (path_of rs ++ slash ∷ []))
      (sym (append_assoc (path_of rs) (slash ∷ []) t))
    ∙ has_prefix-append (path_of rs ++ slash ∷ []) t
path_of-above (m ∷ more) rs t =
    ap (λ p. has_prefix p (path_of rs ++ slash ∷ []))
      (append_assoc (path_of (more ++ rs)) (slash ∷ m) (slash ∷ t))
    ∙ path_of-above more rs (m ++ slash ∷ t)

or_true : (b : Bool) → (b || true) ≡ true
or_true true = refl
or_true false = refl

below_is_contained :
    (more rs : List Text)
    → All IsName rs
    → is_root_or_below (absolute (more ++ rs)) (absolute rs) ≡ true
unfolding path_of
below_is_contained [] rs k = rw ((text_eq_iff (absolute rs) (absolute rs)).1 refl) refl
below_is_contained (m ∷ more) rs k =
    ap
      (λ q.
        text_eq (absolute (m ∷ more ++ rs)) (absolute rs)
        || has_prefix (absolute (m ∷ more ++ rs)) (q ++ slash ∷ []))
      (trim_slash-absolute rs k)
    ∙ ap (λ b. text_eq (absolute (m ∷ more ++ rs)) (absolute rs) || b) (path_of-above more rs m)
    ∙ or_true (text_eq (absolute (m ∷ more ++ rs)) (absolute rs))

contained_is_below :
    (ps rs : List Text)
    → All IsName ps
    → All IsName rs
    → is_root_or_below (absolute ps) (absolute rs) ≡ true
    → (more : List Text) × (ps ≡ more ++ rs)
contained_is_below ps rs h k e = elim (Bool-cases (text_eq (absolute ps) (absolute rs))) [
  | inl same ↦ ([], absolute-injective ps rs h k ((text_eq_iff (absolute ps) (absolute rs)).0 same))
  | inr other ↦
      let r =
        prefix_rest (absolute ps) (path_of rs ++ slash ∷ [])
          (rw (other, trim_slash-absolute rs k) at e) in
      below_root ps rs r.0 h k (r.1 ∙ append_assoc (path_of rs) (slash ∷ []) r.0)
]

-- A cleaned path passes the test for one cleaned root exactly if the root's names are the path's first
-- names: a common prefix of the texts is not enough.
pub is_root_or_below_iff :
    (ps rs : List Text)
    → All IsName ps
    → All IsName rs
    → (is_root_or_below (absolute ps) (absolute rs) ≡ true)
      ↔ ((more : List Text) × (ps ≡ more ++ rs))
is_root_or_below_iff ps rs h k = (
  contained_is_below ps rs h k,
  λ m.
      subst (λ l. is_root_or_below (absolute l) (absolute rs) ≡ true) (sym m.1)
        (below_is_contained m.0 rs k),
)
