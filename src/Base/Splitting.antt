-- ===== src/Base/Splitting.antt =====
-- strings.Split, FieldsFunc, Cut, TrimRight, TrimPrefix and Join; path.Base and path.Join.
pub mod Joining
use Prim.Native.Nat.{ℕ}
use mathlib.Core.Bool.{Bool, true, false, not, ◌||◌}
use mathlib.Core.List.{List, [], ◌∷◌, ◌++◌}
use mathlib.Core.Option.{Option, none, some}
use sftp_relay.Base.Tests.{◌==◌, if◌then◌else◌}
use sftp_relay.Base.Lists.{keep}
use sftp_relay.Base.Strings.{Text, text_eq, has_prefix}
use sftp_relay.Base.Path.{slash, root, dot, clean}

abbrev pub onto_first : ℕ → List Text → List Text
onto_first c [] = (c ∷ []) ∷ []
onto_first c (s ∷ ss) = (c ∷ s) ∷ ss

-- The text between the characters that pass the test, empty pieces included.
unfoldable pub split_where : (ℕ → Bool) → Text → List Text
split_where p [] = [] ∷ []
split_where p (c ∷ s) = let rest = split_where p s in if p c then [] ∷ rest else onto_first c rest

-- strings.Split at one character.
abbrev pub split : ℕ → Text → List Text
split sep = split_where (λ c. c == sep)

abbrev pub is_nonempty : Text → Bool
is_nonempty s = not (text_eq s [])

-- strings.FieldsFunc: the runs of characters that do not pass the test.
abbrev pub fields_where : (ℕ → Bool) → Text → List Text
fields_where p s = keep is_nonempty (split_where p s)

-- strings.Cut: what is before the first separator and what is behind it.
abbrev pub with_before : ℕ → Option (Text × Text) → Option (Text × Text)
with_before c none = none
with_before c (some (before, after)) = some (c ∷ before, after)

unfoldable pub cut : ℕ → Text → Option (Text × Text)
cut sep [] = none
cut sep (c ∷ s) = let rest = cut sep s in if c == sep then some ([], s) else with_before c rest

-- The `before` of strings.Cut, which is all of a text without a separator.
abbrev pub before_cut : Text → Option (Text × Text) → Text
before_cut s none = s
before_cut s (some (before, after)) = before

-- strings.TrimRight
abbrev pub unless_all : (ℕ → Bool) → ℕ → Text → Text
unless_all p c [] = if p c then [] else c ∷ []
unless_all p c (d ∷ rest) = c ∷ d ∷ rest

unfoldable pub trim_right : (ℕ → Bool) → Text → Text
trim_right p [] = []
trim_right p (c ∷ s) = unless_all p c (trim_right p s)

-- strings.TrimLeft
unfoldable pub trim_front : (ℕ → Bool) → Text → Text
trim_front p [] = []
trim_front p (c ∷ s) = let rest = trim_front p s in if p c then rest else c ∷ s

-- strings.TrimPrefix
unfoldable pub drop_prefix : Text → Text → Text
drop_prefix s [] = s
drop_prefix [] (p ∷ ps) = []
drop_prefix (c ∷ s) (p ∷ ps) = drop_prefix s ps

abbrev pub trim_prefix : Text → Text → Text
trim_prefix s p = if has_prefix s p then drop_prefix s p else s

-- strings.Join
unfoldable pub join_with : Text → List Text → Text
join_with sep [] = []
join_with sep (s ∷ []) = s
join_with sep (s ∷ t ∷ ss) = s ++ (sep ++ join_with sep (t ∷ ss))

-- The text behind the last separator.
unfoldable pub last_piece : Text → List Text → Text
last_piece s [] = s
last_piece s (t ∷ ts) = last_piece t ts

abbrev pub or_root : Text → Text
or_root [] = root
or_root (c ∷ s) = c ∷ s

-- path.Base
unfoldable pub base : Text → Text
unfolding split_where trim_right last_piece
base p =
    if text_eq p []
    then dot
    else or_root (last_piece [] (split slash (trim_right (λ c. c == slash) p)))

-- path.Join of two elements.
unfoldable pub join : Text → Text → Text
unfolding clean
join a b =
    if text_eq a []
    then (if text_eq b [] then [] else clean b)
    else if text_eq b []
    then clean a
    else clean (a ++ slash ∷ b)
