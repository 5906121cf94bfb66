-- ===== src/Db/Order.antt =====
-- Tables in descending order of their ids, and what a filter or an update of rows keeps of them.
use sftp_relay.Base.{
  ℕ, ◌<◌, Bool, true, List, [], ◌∷◌, keep, map, ◌≡◌, Bool-cases, inl, inr, All, All-keep, subst,
  sym,
}

module _ {A : Type 0} (id : A → ℕ) where
  -- Newest first, no id twice.
  abbrev pub Newest : List A → Type 0
  Newest [] = Unit
  Newest (a ∷ xs) = All (λ b. id b < id a) xs × Newest xs

  pub Newest-keep : (p : A → Bool) (xs : List A) → Newest xs → Newest (keep p xs)
  Newest-keep p [] h = tt
  Newest-keep p (a ∷ xs) (h, hs) = elim (Bool-cases (p a)) [
    | inl e ↦ rw e (All-keep (λ b. id b < id a) p xs h, Newest-keep p xs hs)
    | inr e ↦ rw e (Newest-keep p xs hs)
  ]

  All-below :
      (f : A → A)
      → ((a : A) → id (f a) ≡ id a)
      → (n : ℕ) (xs : List A) → All (λ b. id b < n) xs
      → All (λ b. id b < n) (map f xs)
  All-below f same n [] h = tt
  All-below f same n (a ∷ xs) (h, hs) =
      (subst (λ i. i < n) (sym (same a)) h, All-below f same n xs hs)

  pub Newest-map :
      (f : A → A) → ((a : A) → id (f a) ≡ id a) → (xs : List A) → Newest xs → Newest (map f xs)
  Newest-map f same [] h = tt
  Newest-map f same (a ∷ xs) (h, hs) = (
    subst (λ i. All (λ b. id b < i) (map f xs)) (sym (same a)) (All-below f same (id a) xs h),
    Newest-map f same xs hs,
  )

module _ {A : Type 0} (P : A → Type 0) where
  pub All-map :
      (f : A → A) → ((a : A) → P a → P (f a)) → (xs : List A) → All P xs → All P (map f xs)
  All-map f keeps [] h = tt
  All-map f keeps (a ∷ xs) (h, hs) = (keeps a h, All-map f keeps xs hs)

  -- What the rows that pass a test have, the test included.
  pub All-kept :
      (Q : A → Type 0) (p : A → Bool)
      → ((a : A) → p a ≡ true → P a → Q a)
      → (xs : List A) → All P xs
      → All Q (keep p xs)
  All-kept Q p to [] h = tt
  All-kept Q p to (a ∷ xs) (h, hs) = elim (Bool-cases (p a)) [
    | inl e ↦ rw e (to a e h, All-kept Q p to xs hs)
    | inr e ↦ rw e (All-kept Q p to xs hs)
  ]

module _ {A : Type 0} where
  pub All-kept_test : (p : A → Bool) (xs : List A) → All (λ a. p a ≡ true) (keep p xs)
  All-kept_test p [] = tt
  All-kept_test p (a ∷ xs) = elim (Bool-cases (p a)) [
    | inl e ↦ rw e (e, All-kept_test p xs)
    | inr e ↦ rw e (All-kept_test p xs)
  ]
