-- ===== src/Nas/Progress/Bounds.antt =====
-- The values that a parsed line can hold (internal/nas/progress.go).
use sftp_relay.Base.{
  ℕ, Text, [], ◌∷◌, Bool, true, false, Option, none, some, ◌≡◌, refl, ◌∙◌, subst, ◌⊎◌, inl, inr,
  Bool-cases, Option-cases, All, arith, is_digit, atoi, number, in_range, leb, ◌==◌, if◌then◌else◌,
  codes, ◌^◌, ◌-◌,
}
use sftp_relay.Base.Int.{ℤ, pos, negsuc, ◌≤ℤ◌}
use sftp_relay.Nas.Patterns.{
  span, at_least_one, some_of, ◌>>=◌, find, got_of, at_number, percentage, speed, eta, summary,
  is_white, literal, white_first, at_boundary, white_number, of_number, bytes_transferred,
}
use sftp_relay.Nas.Progress.{
  Progress, or_zero, atoi64, found_summary, found_at, found_got, found_percent, percent_value,
  is_percent, found_speed, found_eta, nothing_yet, parse_progress,
}

bind_some :
    {A B : Type 0} (o : Option A) (f : A → Option B) (b : B)
    → (o >>= f) ≡ some b
    → (a : A) × (o ≡ some a) × (f a ≡ some b)
bind_some none f b h = cc
bind_some (some a) f b h = (a, refl, h)

find-some :
    {A : Type 0} (m : Text → Option A) (s : Text) (a : A)
    → find m s ≡ some a
    → (t : Text) × (m t ≡ some a)
unfolding find
find-some m [] a h = ([], h)
find-some m (c ∷ s) a h = elim (Option-cases (m (c ∷ s))) [
  | inl n ↦ find-some m s a (rw (find, n) at h)
  | inr (b, e) ↦ (c ∷ s, e ∙ (rw (find, e) at h))
]

abbrev IsDigits : Text → Type 0
IsDigits = All (λ c. is_digit c ≡ true)

span-All : (s : Text) → IsDigits (span is_digit s).0
unfolding span
span-All [] = tt
span-All (c ∷ s) = elim (Bool-cases (is_digit c)) [ inl e ↦ rw e (e, span-All s) | inr e ↦ rw e tt ]

at_least_one-same : (x y : Text × Text) → at_least_one x ≡ some y → x ≡ y
at_least_one-same ([], rest) y h = cc
at_least_one-same (c ∷ taken, rest) y h = cc

some_of-IsDigits : (s : Text) (n : Text × Text) → some_of is_digit s ≡ some n → IsDigits n.0
some_of-IsDigits s n h =
    subst (λ x. IsDigits x.0) (at_least_one-same (span is_digit s) n h) (span-All s)

in_range-nonneg : (o : Option ℕ) (limit : ℕ) → pos 0 ≤ℤ or_zero (in_range o limit pos)
in_range-nonneg none limit = omega arith
in_range-nonneg (some n) limit = elim (Bool-cases (leb n limit)) [
  | inl e ↦ rw e (omega arith)
  | inr e ↦ rw e (omega arith)
]

atoi64-nonneg : (n : Text) → IsDigits n → pos 0 ≤ℤ atoi64 n
unfolding atoi64 atoi
atoi64-nonneg [] h = omega arith
atoi64-nonneg (c ∷ n) (h, hs) =
    let minus : (c == b'-') ≡ false = ground arith in
    let plus : (c == b'+') ≡ false = ground arith in
    rw (minus, plus) (in_range-nonneg (number (c ∷ n)) (2 ^ 63 - 1))

white_number-IsDigits : (s : Text) (n : Text × Text) → white_number s ≡ some n → IsDigits n.0
unfolding white_number
white_number-IsDigits s n h =
    let (w, _, h₁) = bind_some (some_of is_white s) (λ w. some_of is_digit w.1) n h in
    some_of-IsDigits w.1 n h₁

of_number-IsDigits : (s m : Text) → of_number s ≡ some m → IsDigits m
unfolding of_number
of_number-IsDigits s m h =
    let from : Text → Option Text = λ s₁. white_number s₁ >>= λ m. some m.0 in
    let (w, _, h₁) = bind_some (some_of is_white s) (λ w. literal (codes "of") w.1 >>= from) m h in
    let (s₁, _, h₂) = bind_some (literal (codes "of") w.1) from m h₁ in
    let (k, e, h₃) = bind_some (white_number s₁) (λ m. some m.0) m h₂ in
    subst IsDigits (cc h₃) (white_number-IsDigits s₁ k e)

got_of-IsDigits : (s : Text) (r : Text × Text) → got_of s ≡ some r → IsDigits r.0 × IsDigits r.1
unfolding got_of
got_of-IsDigits s r h =
    let pair : Text × Text → Option (Text × Text) = λ n. of_number n.1 >>= λ m. some (n.0, m) in
    let (s₁, _, h₁) = bind_some (literal (codes "got") s) (λ s₁. white_number s₁ >>= pair) r h in
    let (n, e, h₂) = bind_some (white_number s₁) pair r h₁ in
    let (m, f, h₃) = bind_some (of_number n.1) (λ m. some (n.0, m)) r h₂ in
    subst (λ (x : Text × Text). IsDigits x.0 × IsDigits x.1) (cc h₃)
      (white_number-IsDigits s₁ n e, of_number-IsDigits n.1 m f)

at_number-IsDigits : (s n : Text) → at_number s ≡ some n → IsDigits n
unfolding at_number
at_number-IsDigits s n h =
    let end : Text × Text → Option Text = λ n. if at_boundary n.1 then some n.0 else none in
    let (s₁, _, h₁) =
      bind_some (white_first s) (λ s₁. literal (codes "at") s₁ >>= λ s₂. white_number s₂ >>= end) n
        h in
    let (s₂, _, h₂) = bind_some (literal (codes "at") s₁) (λ s₂. white_number s₂ >>= end) n h₁ in
    let (k, e, h₃) = bind_some (white_number s₂) end n h₂ in
    elim (Bool-cases (at_boundary k.1)) [
      | inl b ↦ subst IsDigits (cc (rw b at h₃)) (white_number-IsDigits s₂ k e)
      | inr b ↦ cc (rw b at h₃)
    ]

summary-IsDigits : (s n : Text) → summary s ≡ some n → IsDigits n
unfolding summary
summary-IsDigits s n h =
    let (k, e, h₁) =
      bind_some (some_of is_digit s) (λ k. bytes_transferred k.1 >>= λ s₁. some k.0) n h in
    let (_, _, h₂) = bind_some (bytes_transferred k.1) (λ s₁. some k.0) n h₁ in
    subst IsDigits (cc h₂) (some_of-IsDigits s k e)

-- What every stage of the parser keeps.
abbrev IsSensible : Progress × Bool → Type 0
IsSensible (p, found) =
    (pos 0 ≤ℤ p.bytes)
    × (pos 0 ≤ℤ p.total)
    × ((p.percent ≡ negsuc 0) ⊎ ((pos 0 ≤ℤ p.percent) × (p.percent ≤ℤ pos 100)))
    × (found ≡ false → p ≡ nothing_yet.0)

IsSensible-summary :
    (l : Text) (x : Progress × Bool) → IsSensible x → IsSensible (found_summary (find summary l) x)
IsSensible-summary l (p, found) h = elim (Option-cases (find summary l)) [
  | inl n ↦ rw n h
  | inr (n, e) ↦
      let (t, m) = find-some summary l n e in
      rw e (atoi64-nonneg n (summary-IsDigits t n m), h.1, h.2, λ f. cc)
]

IsSensible-at :
    (l : Text) (x : Progress × Bool) → IsSensible x → IsSensible (found_at (find at_number l) x)
IsSensible-at l (p, found) h = elim (Option-cases (find at_number l)) [
  | inl n ↦ rw n h
  | inr (n, e) ↦
      let (t, m) = find-some at_number l n e in
      rw e (atoi64-nonneg n (at_number-IsDigits t n m), h.1, h.2, λ f. cc)
]

IsSensible-got :
    (l : Text) (x : Progress × Bool)
    → IsSensible x
    → IsSensible (found_got (find got_of l) (find at_number l) x)
IsSensible-got l (p, found) h = elim (Option-cases (find got_of l)) [
  | inl n ↦ rw n (IsSensible-at l (p, found) h)
  | inr (r, e) ↦
      let (t, m) = find-some got_of l r e in
      let (a, b) = got_of-IsDigits t r m in
      rw e (atoi64-nonneg r.0 a, atoi64-nonneg r.1 b, h.2, λ f. cc)
]

IsSensible-value :
    (o : Option ℤ) (x : Progress × Bool) → IsSensible x → IsSensible (percent_value o x)
IsSensible-value none (p, found) h = h
IsSensible-value (some v) (p, found) h = elim (Bool-cases (is_percent v)) [
  | inl e ↦ rw e (h.0, h.1, inr (ground arith, ground arith), λ f. cc)
  | inr e ↦ rw e h
]

IsSensible-percent :
    (o : Option Text) (x : Progress × Bool) → IsSensible x → IsSensible (found_percent o x)
IsSensible-percent none x h = h
IsSensible-percent (some n) x h = IsSensible-value (atoi n) x h

IsSensible-speed :
    (scaled : Text → ℕ → Option ℤ) (o : Option (Text × Text)) (x : Progress × Bool)
    → IsSensible x
    → IsSensible (found_speed scaled o x)
IsSensible-speed scaled none (p, found) h = h
IsSensible-speed scaled (some r) (p, found) h = (h.0, h.1, h.2, λ f. cc)

IsSensible-eta : (o : Option Text) (x : Progress × Bool) → IsSensible x → IsSensible (found_eta o x)
IsSensible-eta none (p, found) h = h
IsSensible-eta (some t) (p, found) h = (h.0, h.1, h.2, λ f. cc)

-- Whatever a line says, the byte counts are not negative and the percentage is one from 0 to 100 or
-- -1; and a line that is not reported as useful leaves every field as it was.
pub parse_progress-IsSensible :
    (scaled : Text → ℕ → Option ℤ) (l : Text)
    → let (p, found) = parse_progress scaled l in
      (pos 0 ≤ℤ p.bytes)
      × (pos 0 ≤ℤ p.total)
      × ((p.percent ≡ negsuc 0) ⊎ ((pos 0 ≤ℤ p.percent) × (p.percent ≤ℤ pos 100)))
      × (found ≡ false → p ≡ nothing_yet.0)
unfolding parse_progress
parse_progress-IsSensible scaled l =
    let x = found_summary (find summary l) nothing_yet in
    let start : IsSensible nothing_yet = (omega arith, omega arith, inl refl, λ f. refl) in
    let got = IsSensible-got l x (IsSensible-summary l nothing_yet start) in
    let y = found_got (find got_of l) (find at_number l) x in
    let z = found_percent (find percentage l) y in
    IsSensible-eta (find eta l) (found_speed scaled (find speed l) z)
      (IsSensible-speed scaled (find speed l) z (IsSensible-percent (find percentage l) y got))
