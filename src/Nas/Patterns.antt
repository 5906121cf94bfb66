-- ===== src/Nas/Patterns.antt =====
-- The regular expressions of internal/nas/progress.go. Each is a matcher at one place of a line, tried
-- from the left. None of them needs to go back: what a repeated class takes, the rest of the expression
-- cannot begin with.
use sftp_relay.Base.{
  ℕ, Text, [], ◌∷◌, ◌++◌, Bool, true, not, ◌&&◌, ◌||◌, Option, none, some, codes, ◌==◌, leb,
  is_digit, if◌then◌else◌,
}

-- A piece of an expression: what it captures and the text behind it.
abbrev pub Piece : Type 0 → Type 0
Piece A = Text → Option (A × Text)

infixl 5 ◌>>=◌
abbrev pub ◌>>=◌ : {A B : Type 0} → Option A → (A → Option B) → Option B
none >>= f = none
some a >>= f = f a

-- \s
abbrev pub is_white : ℕ → Bool
is_white c = c == 32 || c == 9 || c == 10 || c == 12 || c == 13

abbrev pub add_front : ℕ → Text × Text → Text × Text
add_front c (taken, rest) = (c ∷ taken, rest)

-- The longest run of a class.
unfoldable pub span : (ℕ → Bool) → Text → Text × Text
span p [] = ([], [])
span p (c ∷ s) = let more = span p s in if p c then add_front c more else ([], c ∷ s)

abbrev pub at_least_one : Text × Text → Option (Text × Text)
at_least_one ([], rest) = none
at_least_one (c ∷ taken, rest) = some (c ∷ taken, rest)

-- The class, once or more.
abbrev pub some_of : (ℕ → Bool) → Piece Text
some_of p s = at_least_one (span p s)

-- The class, any number of times.
abbrev pub any_of : (ℕ → Bool) → Text → Text
any_of p s = (span p s).1

unfoldable pub literal : Text → Text → Option Text
literal [] s = some s
literal (c ∷ cs) [] = none
literal (c ∷ cs) (d ∷ s) = let rest = literal cs s in if c == d then rest else none

-- The leftmost match.
unfoldable pub find : {A : Type 0} → (Text → Option A) → Text → Option A
find m [] = m []
find m (c ∷ s) = let later = find m s in elim (m (c ∷ s)) [ some a ↦ some a | none ↦ later ]

-- \s+(\d+)
unfoldable pub white_number : Piece Text
unfolding span
white_number s = some_of is_white s >>= λ w. some_of is_digit w.1

-- \s+of\s+(\d+)
unfoldable pub of_number : Text → Option Text
unfolding span literal white_number
of_number s =
    some_of is_white s >>= λ w. literal (codes "of") w.1 >>= λ s₁. white_number s₁ >>= λ m. some m.0

-- got\s+(\d+)\s+of\s+(\d+)
unfoldable pub got_of : Text → Option (Text × Text)
unfolding literal white_number of_number
got_of s =
    literal (codes "got") s >>= λ s₁. white_number s₁ >>= λ n. of_number n.1 >>= λ m. some (n.0, m)

-- A character of a word: [0-9A-Za-z_]
abbrev pub is_word : ℕ → Bool
is_word c = is_digit c || (leb b'A' c && leb c b'Z') || (leb b'a' c && leb c b'z') || c == b'_'

-- \b behind a digit
abbrev pub at_boundary : Text → Bool
at_boundary [] = true
at_boundary (c ∷ s) = not (is_word c)

-- \sat\s+(\d+)\b
abbrev pub white_first : Text → Option Text
white_first [] = none
white_first (c ∷ s) = if is_white c then some s else none

unfoldable pub at_number : Text → Option Text
unfolding literal white_number
at_number s = white_first s >>= λ s₁. literal (codes "at") s₁ >>= λ s₂.
    white_number s₂ >>= λ n. (if at_boundary n.1 then some n.0 else none)

-- \((\d+)%\)
unfoldable pub percentage : Text → Option Text
unfolding literal span
percentage s = literal (codes "(") s >>= λ s₁.
    some_of is_digit s₁ >>= λ n. literal (codes "%)") n.1 >>= λ s₂. some n.0

-- (?:\.[0-9]+)?
abbrev pub with_fraction : Text → Text → Option (Text × Text) → Text × Text
with_fraction whole rest none = (whole, rest)
with_fraction whole rest (some (digits, rest')) = (whole ++ b'.' ∷ digits, rest')

abbrev pub fraction : Text → Option (Text × Text)
fraction s = literal (codes ".") s >>= λ s₁. some_of is_digit s₁

abbrev pub decimal : Text → Option (Text × Text)
decimal s = some_of is_digit s >>= λ n. some (with_fraction n.0 n.1 (fraction n.1))

abbrev pub is_scale : ℕ → Bool
is_scale c =
    c == b'k'
    || c == b'K'
    || c == b'm'
    || c == b'M'
    || c == b'g'
    || c == b'G'
    || c == b't'
    || c == b'T'

-- i?
abbrev pub maybe_i : ℕ → Text → Text × Text
maybe_i c [] = (c ∷ [], [])
maybe_i c (d ∷ s) = if d == b'i' then (c ∷ d ∷ [], s) else (c ∷ [], d ∷ s)

-- ([kKmMgGtT]i?)?
abbrev pub scale_unit : Text → Text × Text
scale_unit [] = ([], [])
scale_unit (c ∷ s) = if is_scale c then maybe_i c s else ([], c ∷ s)

-- [bB]?
abbrev pub maybe_b : Text → Text
maybe_b [] = []
maybe_b (c ∷ s) = if c == b'b' || c == b'B' then s else c ∷ s

-- ([0-9]+(?:\.[0-9]+)?)\s*([kKmMgGtT]i?)?[bB]?/s
unfoldable pub speed : Text → Option (Text × Text)
unfolding literal span
speed s = decimal s >>= λ n.
    (let unit = scale_unit (any_of is_white n.1) in
      literal (codes "/s") (maybe_b unit.1) >>= λ s₁. some (n.0, unit.0))

-- \s+bytes\s+transferred
unfoldable pub bytes_transferred : Text → Option Text
unfolding literal span
bytes_transferred s = some_of is_white s >>= λ w₁. literal (codes "bytes") w₁.1 >>= λ s₁.
    some_of is_white s₁ >>= λ w₂. literal (codes "transferred") w₂.1

-- (\d+)\s+bytes\s+transferred
unfoldable pub summary : Text → Option Text
unfolding span bytes_transferred
summary s = some_of is_digit s >>= λ n. bytes_transferred n.1 >>= λ s₁. some n.0

-- [dhms]
abbrev pub is_unit : ℕ → Bool
is_unit c = c == b'd' || c == b'h' || c == b'm' || c == b's'

-- [0-9dhms:]
abbrev pub is_eta : ℕ → Bool
is_eta c = is_digit c || is_unit c || c == b':'

-- eta:\s*([0-9dhms:]+)
unfoldable pub eta : Text → Option Text
unfolding literal span
eta s = literal (codes "eta:") s >>= λ s₁. some_of is_eta (any_of is_white s₁) >>= λ t. some t.0
