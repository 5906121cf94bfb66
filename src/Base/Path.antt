-- ===== src/Base/Path.antt =====
-- The functions of Go's package path that the program calls.
pub mod Names
use Prim.Native.Nat.{ℕ}
use mathlib.Core.Bool.{Bool, true, false, ◌||◌}
use mathlib.Core.List.{List, [], ◌∷◌, ◌++◌, reverse}
use sftp_relay.Base.Tests.{◌==◌, if◌then◌else◌}
use sftp_relay.Base.Strings.{Text, text_eq, has_prefix}

abbrev pub slash : ℕ
slash = b'/'

abbrev pub dot : Text
dot = b'.' ∷ []

abbrev pub dot_dot : Text
dot_dot = b'.' ∷ b'.' ∷ []

abbrev pub root : Text
root = slash ∷ []

-- The first character goes on the first piece.
abbrev pub on_first : ℕ → List Text → List Text
on_first c [] = (c ∷ []) ∷ []
on_first c (s ∷ ss) = (c ∷ s) ∷ ss

-- The text between the separators.
unfoldable pub pieces : Text → List Text
pieces [] = [] ∷ []
pieces (c ∷ s) = let rest = pieces s in if c == slash then [] ∷ rest else on_first c rest

-- What `..` does to the names so far, newest first.
abbrev pub back_up : Bool → List Text → List Text
back_up rooted [] = if rooted then [] else dot_dot ∷ []
back_up rooted (s ∷ st) = if text_eq s dot_dot then dot_dot ∷ s ∷ st else st

abbrev pub is_skipped : Text → Bool
is_skipped s = text_eq s [] || text_eq s dot

abbrev pub enter : Bool → Text → List Text → List Text
enter rooted s st =
    if is_skipped s then st else if text_eq s dot_dot then back_up rooted st else s ∷ st

unfoldable pub enter_all : Bool → List Text → List Text → List Text
enter_all rooted st [] = st
enter_all rooted st (s ∷ ss) = enter_all rooted (enter rooted s st) ss

-- Each name, the newest last, after a separator.
unfoldable pub path_of : List Text → Text
path_of [] = []
path_of (s ∷ st) = path_of st ++ slash ∷ s

abbrev pub absolute : List Text → Text
absolute [] = root
absolute (s ∷ st) = path_of (s ∷ st)

-- A path with no separator in front.
abbrev pub relative : Text → Text
relative [] = dot
relative (c ∷ s) = s

-- path.Clean
unfoldable pub clean : Text → Text
unfolding pieces enter_all path_of
clean p =
    let rooted = has_prefix p root in
    let names = enter_all rooted [] (pieces p) in
    if rooted then absolute names else relative (path_of names)

-- What path.Split leaves of a path up to the last separator.
unfoldable pub dir_part : Text → Text
dir_part [] = []
dir_part (c ∷ s) =
    let rest = dir_part s in if text_eq rest [] then (if c == slash then root else []) else c ∷ rest

-- path.Dir
unfoldable pub dir : Text → Text
unfolding clean dir_part
dir p = clean (dir_part p)

-- strings.TrimSuffix(s, "/")
unfoldable pub trim_slash : Text → Text
trim_slash [] = []
trim_slash (c ∷ []) = if c == slash then [] else c ∷ []
trim_slash (c ∷ d ∷ s) = c ∷ trim_slash (d ∷ s)
