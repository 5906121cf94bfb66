-- ===== src/Nas/Progress/Got.antt =====
-- A line on which lftp says how much of how many bytes it got (internal/nas/progress.go).
use sftp_relay.Base.{
  ℕ, Text, [], ◌∷◌, ◌++◌, Bool, true, false, Option, none, some, ◌<◌, ◌^◌, ◌==◌, ◌≡◌, refl, sym, ap,
  ◌∙◌, All, arith, codes, is_digit, Bool-cases, inl, inr, atoi, subst,
}
use sftp_relay.Base.Int.{ℤ, pos}
use sftp_relay.Base.Decimal.{itoa_ℕ, itoa_ℕ-All}
use sftp_relay.Nas.Patterns.{
  ◌>>=◌, span, at_least_one, some_of, is_white, literal, find, white_number, of_number, got_of,
  at_number, summary, percentage, speed, eta,
}
use sftp_relay.Nas.Progress.{
  Progress, nothing_yet, found_summary, found_got, is_percent, percent_value, found_percent,
  found_speed, found_eta, parse_progress,
}
use sftp_relay.Nas.Progress.Eta.{digits_before-cons, atoi64-itoa_ℕ}

-- A text that does not go on with a class.
abbrev pub Stops : (ℕ → Bool) → Text → Type 0
Stops p [] = Unit
Stops p (c ∷ s) = p c ≡ false

span-All :
    (p : ℕ → Bool) (xs rest : Text)
    → All (λ c. p c ≡ true) xs
    → Stops p rest
    → span p (xs ++ rest) ≡ (xs, rest)
unfolding span
span-All p [] [] h k = refl
span-All p [] (c ∷ s) h k = rw k refl
span-All p (x ∷ xs) rest (h, hs) k = rw (h, span-All p xs rest hs k) refl

-- A number in the text is taken whole.
some_of-itoa_ℕ :
    (n : ℕ) (rest : Text)
    → Stops is_digit rest
    → some_of is_digit (itoa_ℕ n ++ rest) ≡ some (itoa_ℕ n, rest)
unfolding itoa_ℕ
some_of-itoa_ℕ n rest k =
    let (c, s, e) = digits_before-cons n n [] in
    ap at_least_one (span-All is_digit (itoa_ℕ n) rest (itoa_ℕ-All n) k)
    ∙ ap (λ d. at_least_one (d, rest)) e
    ∙ ap (λ d. some (d, rest)) (sym e)

some_of-blank :
    (ds rest : Text) (c : ℕ) (s : Text)
    → ds ≡ c ∷ s
    → All (λ c. is_digit c ≡ true) ds
    → some_of is_white (32 ∷ (ds ++ rest)) ≡ some (32 ∷ [], ds ++ rest)
unfolding span
some_of-blank [] rest c s e h = cc
some_of-blank (d ∷ ds) rest c s e (h, hs) =
    let other : is_white d ≡ false = ground arith in rw other refl

white_number-itoa_ℕ :
    (n : ℕ) (rest : Text)
    → Stops is_digit rest
    → white_number (32 ∷ (itoa_ℕ n ++ rest)) ≡ some (itoa_ℕ n, rest)
unfolding white_number itoa_ℕ
white_number-itoa_ℕ n rest k =
    let (c, s, e) = digits_before-cons n n [] in
    ap (λ o. o >>= λ w. some_of is_digit w.1) (some_of-blank (itoa_ℕ n) rest c s e (itoa_ℕ-All n))
    ∙ some_of-itoa_ℕ n rest k

-- What lftp writes, with some text behind it.
abbrev pub got_text : ℕ → ℕ → Text → Text
got_text n m after = codes "got " ++ (itoa_ℕ n ++ (codes " of " ++ (itoa_ℕ m ++ after)))

of_number-itoa_ℕ :
    (m : ℕ) (after : Text)
    → Stops is_digit after
    → of_number (codes " of " ++ (itoa_ℕ m ++ after)) ≡ some (itoa_ℕ m)
unfolding of_number span literal
of_number-itoa_ℕ m after k = ap (λ o. o >>= λ x. some x.0) (white_number-itoa_ℕ m after k)

got_of-got_text :
    (n m : ℕ) (after : Text)
    → Stops is_digit after
    → got_of (got_text n m after) ≡ some (itoa_ℕ n, itoa_ℕ m)
unfolding got_of literal
got_of-got_text n m after k =
    ap (λ o. o >>= λ x. of_number x.1 >>= λ y. some (x.0, y))
      (white_number-itoa_ℕ n (codes " of " ++ (itoa_ℕ m ++ after)) refl)
    ∙ ap (λ o. o >>= λ y. some (itoa_ℕ n, y)) (of_number-itoa_ℕ m after k)

got_of-other : (c : ℕ) (s : Text) → (b'g' == c) ≡ false → got_of (c ∷ s) ≡ none
unfolding got_of literal
got_of-other c s h = rw h refl

-- What a search makes of a place and of those behind it.
abbrev or_later : Option (Text × Text) → Option (Text × Text) → Option (Text × Text)
or_later o later = elim o [ some a ↦ some a | none ↦ later ]

-- No other place before it begins a match, if no `g` does.
find-skip :
    (before rest : Text)
    → All (λ c. (b'g' == c) ≡ false) before
    → find got_of (before ++ rest) ≡ find got_of rest
unfolding find
find-skip [] rest h = refl
find-skip (c ∷ before) rest (h, hs) =
    ap (λ o. or_later o (find got_of (before ++ rest))) (got_of-other c (before ++ rest) h)
    ∙ find-skip before rest hs

find-here :
    (c : ℕ) (s : Text) (x : Text × Text) → got_of (c ∷ s) ≡ some x → find got_of (c ∷ s) ≡ some x
unfolding find
find-here c s x h = ap (λ o. or_later o (find got_of s)) h

-- The counts are there, and the line is of use.
abbrev Counts : ℕ → ℕ → Progress × Bool → Type 0
Counts n m (p, found) = (p.bytes ≡ pos n) × (p.total ≡ pos m) × (found ≡ true)

Counts-value :
    (n m : ℕ) (o : Option ℤ) (x : Progress × Bool) → Counts n m x → Counts n m (percent_value o x)
Counts-value n m none (p, found) h = h
Counts-value n m (some v) (p, found) h = elim (Bool-cases (is_percent v)) [
  | inl e ↦ rw e (h.0, h.1, refl)
  | inr e ↦ rw e h
]

Counts-percent :
    (n m : ℕ) (o : Option Text) (x : Progress × Bool)
    → Counts n m x
    → Counts n m (found_percent o x)
Counts-percent n m none x h = h
Counts-percent n m (some t) x h = Counts-value n m (atoi t) x h

Counts-speed :
    (scaled : Text → ℕ → Option ℤ) (n m : ℕ) (o : Option (Text × Text)) (x : Progress × Bool)
    → Counts n m x
    → Counts n m (found_speed scaled o x)
Counts-speed scaled n m none (p, found) h = h
Counts-speed scaled n m (some r) (p, found) h = (h.0, h.1, refl)

Counts-eta :
    (n m : ℕ) (o : Option Text) (x : Progress × Bool) → Counts n m x → Counts n m (found_eta o x)
Counts-eta n m none (p, found) h = h
Counts-eta n m (some t) (p, found) h = (h.0, h.1, refl)

-- A line that tells of `n` bytes got of `m`, wherever in the line and whatever else it tells, is of
-- use and gives just these counts, if they fit an int64, no `g` comes before, and no digit right after.
pub parse_progress-got_text :
    (scaled : Text → ℕ → Option ℤ) (before after : Text) (n m : ℕ)
    → All (λ c. (b'g' == c) ≡ false) before
    → Stops is_digit after
    → n < 2 ^ 63
    → m < 2 ^ 63
    → let (p, found) = parse_progress scaled (before ++ got_text n m after) in
      (p.bytes ≡ pos n) × (p.total ≡ pos m) × (found ≡ true)
unfolding parse_progress
parse_progress-got_text scaled before after n m h k n_fits m_fits =
    let l = before ++ got_text n m after in
    let there : find got_of l ≡ some (itoa_ℕ n, itoa_ℕ m) =
      find-skip before (got_text n m after) h
      ∙ find-here b'g' (codes "ot " ++ (itoa_ℕ n ++ (codes " of " ++ (itoa_ℕ m ++ after))))
          (itoa_ℕ n, itoa_ℕ m) (got_of-got_text n m after k) in
    let x = found_summary (find summary l) nothing_yet in
    let got : Counts n m (found_got (find got_of l) (find at_number l) x) =
      subst (λ o. Counts n m (found_got o (find at_number l) x)) (sym there)
        (atoi64-itoa_ℕ n n_fits, atoi64-itoa_ℕ m m_fits, refl) in
    let y = found_got (find got_of l) (find at_number l) x in
    let z = found_percent (find percentage l) y in
    Counts-eta n m (find eta l) (found_speed scaled (find speed l) z)
      (Counts-speed scaled n m (find speed l) z (Counts-percent n m (find percentage l) y got))
