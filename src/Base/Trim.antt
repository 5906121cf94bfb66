-- ===== src/Base/Trim.antt =====
-- strings.TrimSpace applied twice.
use mathlib.Core.Path.{◌≡◌, refl, sym, ap, ◌∙◌}
use mathlib.Core.Logic.{inl, inr}
use mathlib.Core.Bool.{false}
use mathlib.Core.List.{[], ◌∷◌, ◌++◌, reverse, reverse-append, reverse-reverse}
use sftp_relay.Base.Tests.{Bool-cases}
use sftp_relay.Base.Strings.{Text}
use sftp_relay.Base.Strconv.{is_space, trim_left, trim_space}

-- No space in front.
abbrev Flush : Text → Type 0
Flush [] = Unit
Flush (c ∷ s) = is_space c ≡ false

trim_left-Flush : (s : Text) → Flush (trim_left s)
unfolding trim_left
trim_left-Flush [] = tt
trim_left-Flush (c ∷ s) = elim (Bool-cases (is_space c)) [
  | inl e ↦ rw e (trim_left-Flush s)
  | inr e ↦ rw e e
]

Flush-trim_left : (s : Text) → Flush s → trim_left s ≡ s
unfolding trim_left
Flush-trim_left [] h = refl
Flush-trim_left (c ∷ s) h = rw h refl

-- What is trimmed stood in front.
front : (s : Text) → (pre : Text) × (s ≡ pre ++ trim_left s)
unfolding trim_left
front [] = ([], refl)
front (c ∷ s) = elim (Bool-cases (is_space c)) [
  | inl e ↦ rw e (c ∷ (front s).0, ap (λ l. c ∷ l) (front s).1)
  | inr e ↦ rw e ([], refl)
]

Flush-append : (s t : Text) → Flush (s ++ t) → Flush s
Flush-append [] t h = tt
Flush-append (c ∷ s) t h = h

Flush-reverse : (u : Text) → Flush u → Flush (reverse (trim_left (reverse u)))
Flush-reverse u h =
    let (pre, e) = front (reverse u) in
    let whole : u ≡ reverse (trim_left (reverse u)) ++ reverse pre =
      sym (reverse-reverse u) ∙ ap reverse e ∙ reverse-append pre (trim_left (reverse u)) in
    Flush-append (reverse (trim_left (reverse u))) (reverse pre) (rw whole at h)

-- A trimmed text has nothing left to trim.
pub trim_space_idempotent : (s : Text) → trim_space (trim_space s) ≡ trim_space s
unfolding trim_space
trim_space_idempotent s =
    let u = trim_left s in
    let v = trim_left (reverse u) in
    ap (λ t. reverse (trim_left (reverse t)))
      (Flush-trim_left (reverse v) (Flush-reverse u (trim_left-Flush s)))
    ∙ ap (λ t. reverse (trim_left t)) (reverse-reverse v)
    ∙ ap reverse (Flush-trim_left v (trim_left-Flush (reverse u)))
