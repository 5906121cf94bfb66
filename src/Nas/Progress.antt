-- ===== src/Nas/Progress.antt =====
-- internal/nas/progress.go: what a line of lftp output says of a transfer, by the expressions of
-- Nas/Patterns. ParseFloat and the product that it is used in are a parameter.
pub mod Bounds
pub mod Eta
pub mod Got
use sftp_relay.Base.{
  ℕ, zero, suc, ◌+◌, ◌*◌, ◌%◌, ◌^◌, Text, List, [], ◌∷◌, ◌++◌, map, Bool, true, false, not, ◌&&◌,
  ◌||◌, Option, none, some, text_eq, codes, ◌==◌, leb, is_digit, atoi, if◌then◌else◌,
}
use sftp_relay.Base.Int.{ℤ, pos, negsuc, mul64, add64, ltb_ℤ}
use sftp_relay.Base.Splitting.{split}
use sftp_relay.Nas.Patterns.{
  find, got_of, at_number, percentage, decimal, speed, summary, is_unit, eta,
}

-- `percent` is -1 when the line carries no percentage.
pub record Progress : Type 0 where
  pub bytes : ℤ
  pub total : ℤ
  pub percent : ℤ
  pub speed_bps : ℤ
  pub eta_seconds : ℤ
  pub final : Bool

abbrev pub or_zero : Option ℤ → ℤ
or_zero none = pos 0
or_zero (some n) = n

unfoldable pub atoi64 : Text → ℤ
atoi64 s = or_zero (atoi s)

-- (\d+)([dhms]), all the matches: the digits that stand right before a unit.
unfoldable pub units : Text → Text → List (Text × ℕ)
units digits [] = []
units digits (c ∷ s) =
    let rest = units (if is_digit c then digits ++ c ∷ [] else []) s in
    if is_unit c && not (text_eq digits []) then (digits, c) ∷ rest else rest

abbrev pub unit_seconds : ℕ → ℕ
unit_seconds c =
    if c == b'd' then 86400 else if c == b'h' then 3600 else if c == b'm' then 60 else 1

unfoldable pub sum_units : ℤ → List (Text × ℕ) → ℤ
unfolding atoi64
sum_units total [] = total
sum_units total ((n, c) ∷ us) = sum_units (add64 total (mul64 (atoi64 n) (pos (unit_seconds c)))) us

unfoldable pub sum_parts : ℤ → List Text → ℤ
unfolding atoi64
sum_parts total [] = total
sum_parts total (part ∷ parts) = sum_parts (add64 (mul64 total (pos 60)) (atoi64 part)) parts

abbrev pub has_colon : Text → Bool
has_colon [] = false
has_colon (c ∷ s) = let rest = has_colon s in c == b':' || rest

unfoldable pub parse_eta : Text → ℤ
unfolding units sum_units sum_parts
parse_eta s =
    if has_colon s then sum_parts (pos 0) (split b':' s) else sum_units (pos 0) (units [] s)

-- What a unit stands for, with or without its `i`.
abbrev pub scale_factor : Text → ℕ
scale_factor [] = 1
scale_factor (c ∷ s) =
    if c == b'k' || c == b'K'
    then 1024
    else if c == b'm' || c == b'M'
    then 1048576
    else if c == b'g' || c == b'G'
    then 1073741824
    else if c == b't' || c == b'T'
    then 1099511627776
    else 1

abbrev pub found_summary : Option Text → Progress × Bool → Progress × Bool
found_summary none (p, found) = (p, found)
found_summary (some n) (p, found) = (record p { bytes = atoi64 n; final = true }, true)

abbrev pub found_at : Option Text → Progress × Bool → Progress × Bool
found_at none (p, found) = (p, found)
found_at (some n) (p, found) = (record p { bytes = atoi64 n }, true)

abbrev pub found_got : Option (Text × Text) → Option Text → Progress × Bool → Progress × Bool
found_got none at (p, found) = found_at at (p, found)
found_got (some (n, m)) at (p, found) = (record p { bytes = atoi64 n; total = atoi64 m }, true)

abbrev pub is_percent : ℤ → Bool
is_percent v = not (ltb_ℤ v (pos 0)) && not (ltb_ℤ (pos 100) v)

abbrev pub percent_value : Option ℤ → Progress × Bool → Progress × Bool
percent_value none (p, found) = (p, found)
percent_value (some v) (p, found) =
    if is_percent v then (record p { percent = v }, true) else (p, found)

abbrev pub found_percent : Option Text → Progress × Bool → Progress × Bool
found_percent none x = x
found_percent (some n) x = percent_value (atoi n) x

abbrev pub found_eta : Option Text → Progress × Bool → Progress × Bool
found_eta none (p, found) = (p, found)
found_eta (some t) (p, found) = (record p { eta_seconds = parse_eta t }, true)

abbrev pub nothing_yet : Progress × Bool
nothing_yet = (
  record {
    bytes = pos 0;
    total = pos 0;
    percent = negsuc 0;
    speed_bps = pos 0;
    eta_seconds = pos 0;
    final = false;
  },
  false,
)

-- `scaled` reads a decimal and multiplies it, as int64; `none` where ParseFloat fails.
module _ (scaled : Text → ℕ → Option ℤ) where
  abbrev pub parse_speed : Text → Text → ℤ
  parse_speed n unit = or_zero (scaled n (scale_factor unit))

  abbrev pub found_speed : Option (Text × Text) → Progress × Bool → Progress × Bool
  found_speed none (p, found) = (p, found)
  found_speed (some (n, unit)) (p, found) = (record p { speed_bps = parse_speed n unit }, true)

  unfoldable pub parse_progress : Text → Progress × Bool
  unfolding find summary got_of at_number percentage speed eta parse_eta atoi64
  parse_progress l = found_eta (find eta l) (
      found_speed (find speed l) (
        found_percent (find percentage l) (
          found_got (find got_of l) (find at_number l)
            (found_summary (find summary l) nothing_yet))))
