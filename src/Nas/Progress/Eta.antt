-- ===== src/Nas/Progress/Eta.antt =====
-- The two ways in which lftp writes the time that is left (internal/nas/progress.go).
use sftp_relay.Base.{
  ℕ, zero, suc, ◌+◌, ◌/◌, ◌%◌, ◌-◌, ◌^◌, ◌<◌, Text, List, [], ◌∷◌, ◌++◌, true, false, some, ◌≡◌,
  refl, ap, ◌∙◌, inl, inr, Bool-cases, All, arith, is_digit, atoi, number, in_range, digits_value,
  leb, ltb, ◌==◌,
}
use sftp_relay.Base.Int.{pos}
use sftp_relay.Base.Decimal.{itoa_ℕ, digits_before, digits_value-itoa_ℕ, itoa_ℕ-All}
use sftp_relay.Nas.Progress.{or_zero, atoi64}

pub digits_before-cons :
    (f n : ℕ) (rest : Text) → (c : ℕ) × (s : Text) × (digits_before f n rest ≡ c ∷ s)
unfolding digits_before
digits_before-cons zero n rest = (b'0' + n % 10, rest, refl)
digits_before-cons (suc f) n rest = elim (Bool-cases (ltb n 10)) [
  | inl e ↦ (b'0' + n % 10, rest, rw e refl)
  | inr e ↦ let (c, s, q) = digits_before-cons f (n / 10) ((b'0' + n % 10) ∷ rest) in (c, s, rw e q)
]

atoi64_digits :
    (ds : Text) (c : ℕ) (s : Text) (n : ℕ)
    → ds ≡ c ∷ s
    → All (λ c. is_digit c ≡ true) ds
    → digits_value 0 ds ≡ some n
    → n < 2 ^ 63
    → atoi64 ds ≡ pos n
unfolding atoi64 atoi number
atoi64_digits [] c s n e all value small = cc
atoi64_digits (d ∷ ds) c s n e (h, hs) value small =
    let minus : (d == b'-') ≡ false = ground arith in
    let plus : (d == b'+') ≡ false = ground arith in
    let fits : leb n (2 ^ 63 - 1) ≡ true = ground arith in
    rw (minus, plus) (ap (λ o. or_zero (in_range o (2 ^ 63 - 1) pos)) value ∙ rw fits refl)

pub atoi64-itoa_ℕ : (n : ℕ) → n < 2 ^ 63 → atoi64 (itoa_ℕ n) ≡ pos n
unfolding itoa_ℕ
atoi64-itoa_ℕ n small =
    let (c, s, e) = digits_before-cons n n [] in
    atoi64_digits (itoa_ℕ n) c s n e (itoa_ℕ-All n) (digits_value-itoa_ℕ n) small

abbrev IsDigits : Text → Type 0
IsDigits = All (λ c. is_digit c ≡ true)

-- The time as lftp writes it in hours, minutes and seconds between colons.
abbrev pub clock : ℕ → ℕ → ℕ → Text
clock h m s = itoa_ℕ h ++ b':' ∷ (itoa_ℕ m ++ b':' ∷ itoa_ℕ s)

-- The time with a letter behind each number.
abbrev pub spelled : ℕ → ℕ → ℕ → ℕ → Text
spelled d h m s =
    itoa_ℕ d ++ b'd' ∷ (itoa_ℕ h ++ b'h' ∷ (itoa_ℕ m ++ b'm' ∷ (itoa_ℕ s ++ b's' ∷ [])))
