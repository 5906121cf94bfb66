-- ===== src/Base/Sorting.antt =====
-- sort.Slice: the elements in an order of a test `less`. Where `less` tells two elements apart in
-- neither way, Go's order is not specified, and this is one of those that it may give.
use mathlib.Core.Bool.{Bool, true, false, ◌||◌, ◌&&◌}
use mathlib.Core.List.{List, [], ◌∷◌, Perm}
use mathlib.Core.List.Perm
use native.Mathlib.Omega.{arith}
use mathlib.Core.Path.{◌≡◌, refl}
use mathlib.Core.Logic.{inl, inr}
use sftp_relay.Base.Tests.{ltb, ◌==◌, if◌then◌else◌, Bool-cases}
use sftp_relay.Base.Lists.{All}
use sftp_relay.Base.Strings.{Text}

-- The order of Go's strings.
abbrev pub text_ltb : Text → Text → Bool
text_ltb s [] = false
text_ltb [] (c ∷ t) = true
text_ltb (a ∷ s) (b ∷ t) = ltb a b || (a == b && text_ltb s t)

module _ {ℓ} {A : Type ℓ} (less : A → A → Bool) where
  unfoldable pub insert_by : A → List A → List A
  insert_by x [] = x ∷ []
  insert_by x (y ∷ ys) = let rest = insert_by x ys in if less y x then y ∷ rest else x ∷ y ∷ ys

  unfoldable pub sort_by : List A → List A
  unfolding insert_by
  sort_by [] = []
  sort_by (x ∷ xs) = insert_by x (sort_by xs)

module _ {ℓ κ} {A : Type ℓ} (less : A → A → Bool) (P : A → Type κ) where
  All-insert_by : (x : A) (xs : List A) → P x → All P xs → All P (insert_by less x xs)
  unfolding insert_by
  All-insert_by x [] h hs = (h, tt)
  All-insert_by x (y ∷ ys) h (k, ks) = elim (Bool-cases (less y x)) [
    | inl e ↦ rw e (k, All-insert_by x ys h ks)
    | inr e ↦ rw e (h, (k, ks))
  ]

  -- Sorting keeps what holds of each element.
  pub All-sort_by : (xs : List A) → All P xs → All P (sort_by less xs)
  unfolding sort_by
  All-sort_by [] h = tt
  All-sort_by (x ∷ xs) (h, hs) = All-insert_by x (sort_by less xs) h (All-sort_by xs hs)

module _ {ℓ} {A : Type ℓ} (less : A → A → Bool) where
  insert_by-perm : (x : A) (xs : List A) → Perm (insert_by less x xs) (x ∷ xs)
  unfolding insert_by
  insert_by-perm x [] = Perm.rfl
  insert_by-perm x (y ∷ ys) = elim (Bool-cases (less y x)) [
    | inl e ↦ rw e (Perm.trans (Perm.cons y (insert_by-perm x ys)) (Perm.swap x y ys))
    | inr e ↦ rw e Perm.rfl
  ]

  pub sort_by-perm : (xs : List A) → Perm (sort_by less xs) xs
  unfolding sort_by
  sort_by-perm [] = Perm.rfl
  sort_by-perm (x ∷ xs) =
      Perm.trans (insert_by-perm x (sort_by less xs)) (Perm.cons x (sort_by-perm xs))

-- A text does not come before one that comes before it.
pub text_ltb_asym : (s t : Text) → text_ltb s t ≡ true → text_ltb t s ≡ false
text_ltb_asym s [] h = cc
text_ltb_asym [] (c ∷ t) h = refl
text_ltb_asym (a ∷ s) (b ∷ t) h = ground (arith, text_ltb_asym s t)

module _ {A : Type 0} (less : A → A → Bool) where
  -- No element comes right before one that is less.
  abbrev pub IsOrdered : List A → Type 0
  IsOrdered [] = Unit
  IsOrdered (x ∷ []) = Unit
  IsOrdered (x ∷ y ∷ ys) = (less y x ≡ false) × IsOrdered (y ∷ ys)

  module _ (asymmetric : (x y : A) → less x y ≡ true → less y x ≡ false) where
    insert_below :
        (x y : A) (ys : List A)
        → less y x ≡ true
        → IsOrdered (y ∷ ys)
        → IsOrdered (insert_by less x ys)
        → IsOrdered (y ∷ insert_by less x ys)
    unfolding insert_by
    insert_below x y [] l h k = (asymmetric y x l, tt)
    insert_below x y (z ∷ zs) l (h, hs) k = elim (Bool-cases (less z x)) [
      | inl e ↦ rw e (h, (rw e at k))
      | inr e ↦ rw e (asymmetric y x l, (rw e at k))
    ]

    insert_by-IsOrdered : (x : A) (xs : List A) → IsOrdered xs → IsOrdered (insert_by less x xs)
    unfolding insert_by
    insert_by-IsOrdered x [] h = tt
    insert_by-IsOrdered x (y ∷ []) h = elim (Bool-cases (less y x)) [
      | inl e ↦ rw e (asymmetric y x e, tt)
      | inr e ↦ rw e (e, tt)
    ]
    insert_by-IsOrdered x (y ∷ z ∷ zs) (h, hs) = elim (Bool-cases (less y x)) [
      | inl e ↦ rw e (insert_below x y (z ∷ zs) e (h, hs) (insert_by-IsOrdered x (z ∷ zs) hs))
      | inr e ↦ rw e (e, (h, hs))
    ]

    pub sort_by-IsOrdered : (xs : List A) → IsOrdered (sort_by less xs)
    unfolding sort_by
    sort_by-IsOrdered [] = tt
    sort_by-IsOrdered (x ∷ xs) = insert_by-IsOrdered x (sort_by less xs) (sort_by-IsOrdered xs)
