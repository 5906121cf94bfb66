-- ===== src/Base/Decimal.antt =====
-- Decimal printing, as strconv.Itoa and the verb %d do, and reading it back.
use Prim.Native.Nat.{ℕ, zero, suc, ◌+◌, ◌-◌, ◌*◌, ◌/◌, ◌%◌, ◌<◌}
use mathlib.Core.Path.{◌≡◌, refl, ap, sym, ◌∙◌}
use mathlib.Core.Logic.{inl, inr}
use mathlib.Core.Bool.{true}
use mathlib.Core.Option.{some}
use mathlib.Core.List.{[], ◌∷◌}
use native.Mathlib.Omega.{arith}
use sftp_relay.Base.Tests.{ltb, Bool-cases, if◌then◌else◌}
use sftp_relay.Base.Lists.{All}
use sftp_relay.Base.Int.{ℤ, pos, negsuc}
use sftp_relay.Base.Strings.{Text}
use sftp_relay.Base.Strconv.{is_digit, digits_value}

-- The digits of a number below 10 ^ fuel, in front of a rest.
unfoldable pub digits_before : ℕ → ℕ → Text → Text
digits_before zero n rest = (b'0' + n % 10) ∷ rest
digits_before (suc f) n rest =
    let more = digits_before f (n / 10) ((b'0' + n % 10) ∷ rest) in
    if ltb n 10 then (b'0' + n % 10) ∷ rest else more

-- strconv.Itoa of a number that is not negative. A number has no more digits than its value.
unfoldable pub itoa_ℕ : ℕ → Text
unfolding digits_before
itoa_ℕ n = digits_before n n []

unfoldable pub itoa : ℤ → Text
unfolding itoa_ℕ
itoa (pos n) = itoa_ℕ n
itoa (negsuc n) = b'-' ∷ itoa_ℕ (suc n)

digit_value :
    (a d : ℕ) (rest : Text)
    → d < 10
    → digits_value a ((b'0' + d) ∷ rest) ≡ digits_value (a * 10 + d) rest
unfolding digits_value
digit_value a d rest h =
    let e : (b'0' + d) - b'0' ≡ d = omega arith in
    let t : is_digit (b'0' + d) ≡ true = ground arith in rw (t, e) refl

-- Reading goes through the digits of `n`, from nothing, to the rest.
digits_value-digits_before :
    (f n : ℕ) (rest : Text)
    → n < suc f
    → digits_value 0 (digits_before f n rest) ≡ digits_value n rest
unfolding digits_before
digits_value-digits_before zero n rest h =
    digit_value 0 (n % 10) rest (omega arith) ∙ ap (λ k. digits_value k rest) (omega arith)
digits_value-digits_before (suc f) n rest h = elim (Bool-cases (ltb n 10)) [
  | inl e ↦
      let small : n < 10 = ground arith in
      rw e (digit_value 0 (n % 10) rest (omega arith) ∙ ap (λ k. digits_value k rest) (omega arith))
  | inr e ↦ rw e (
      digits_value-digits_before f (n / 10) ((b'0' + n % 10) ∷ rest) (ground arith)
      ∙ digit_value (n / 10) (n % 10) rest (omega arith)
      ∙ ap (λ k. digits_value k rest) (omega arith))
]

pub digits_value-itoa_ℕ : (n : ℕ) → digits_value 0 (itoa_ℕ n) ≡ some n
unfolding itoa_ℕ digits_value
digits_value-itoa_ℕ n = digits_value-digits_before n n [] (omega arith)

-- The text of a number tells the number.
pub itoa_ℕ-injective : (m n : ℕ) → itoa_ℕ m ≡ itoa_ℕ n → m ≡ n
itoa_ℕ-injective m n e =
    let both = sym (digits_value-itoa_ℕ m) ∙ ap (digits_value 0) e ∙ digits_value-itoa_ℕ n in
    cc both

All-digits_before :
    (f n : ℕ) (rest : Text)
    → All (λ c. is_digit c ≡ true) rest
    → All (λ c. is_digit c ≡ true) (digits_before f n rest)
unfolding digits_before
All-digits_before zero n rest h = (ground arith, h)
All-digits_before (suc f) n rest h =
    let one : is_digit (b'0' + n % 10) ≡ true = ground arith in
    elim (Bool-cases (ltb n 10)) [
      | inl e ↦ rw e (one, h)
      | inr e ↦ rw e (All-digits_before f (n / 10) ((b'0' + n % 10) ∷ rest) (one, h))
    ]

pub itoa_ℕ-All : (n : ℕ) → All (λ c. is_digit c ≡ true) (itoa_ℕ n)
unfolding itoa_ℕ
itoa_ℕ-All n = All-digits_before n n [] tt
