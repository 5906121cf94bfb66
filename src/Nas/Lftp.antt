-- ===== src/Nas/Lftp.antt =====
-- The texts that internal/nas/lftp.go hands to the shell, to lftp and to ssh.
pub mod Quoting
pub mod Keys
use sftp_relay.Base.{ℕ, Bool, false, ◌&&◌, ◌||◌, List, [], ◌∷◌, ◌++◌, ◌==◌, if◌then◌else◌, Text}

abbrev pub quote : ℕ
quote = 39

abbrev pub double_quote : ℕ
double_quote = 34

abbrev pub backslash : ℕ
backslash = 92

abbrev pub line_feed : ℕ
line_feed = 10

abbrev pub carriage_return : ℕ
carriage_return = 13

-- strings.ReplaceAll(s, "'", `'\''`)
unfoldable pub escape_quotes : Text → Text
escape_quotes [] = []
escape_quotes (c ∷ s) =
    let rest = escape_quotes s in
    if c == quote then quote ∷ backslash ∷ quote ∷ quote ∷ rest else c ∷ rest

unfoldable pub sh_quote : Text → Text
unfolding escape_quotes
sh_quote s = quote ∷ (escape_quotes s ++ quote ∷ [])

-- The loop of `lftpQuote`.
unfoldable pub escape_specials : Text → Text
escape_specials [] = []
escape_specials (c ∷ s) =
    let rest = escape_specials s in
    if c == backslash || c == double_quote then backslash ∷ c ∷ rest else c ∷ rest

unfoldable pub lftp_quote : Text → Text
unfolding escape_specials
lftp_quote s = double_quote ∷ (escape_specials s ++ double_quote ∷ [])

-- bytes.ReplaceAll(b, "\r\n", "\n")
abbrev pub starts_with_feed : Text → Bool
starts_with_feed [] = false
starts_with_feed (c ∷ s) = c == line_feed

unfoldable pub unix_lines : Text → Text
unix_lines [] = []
unix_lines (c ∷ s) =
    let rest = unix_lines s in if c == carriage_return && starts_with_feed s then rest else c ∷ rest

-- bytes.ReplaceAll(b, "\r", "\n")
unfoldable pub returns_to_feeds : Text → Text
returns_to_feeds [] = []
returns_to_feeds (c ∷ s) =
    let rest = returns_to_feeds s in if c == carriage_return then line_feed ∷ rest else c ∷ rest

-- bytes.TrimRight(b, "\n")
abbrev pub unless_feed : ℕ → Text → Text
unless_feed c [] = if c == line_feed then [] else c ∷ []
unless_feed c (d ∷ rest) = c ∷ d ∷ rest

unfoldable pub trim_feeds : Text → Text
trim_feeds [] = []
trim_feeds (c ∷ s) = unless_feed c (trim_feeds s)

unfoldable pub normalize_pem : Text → Text
unfolding unix_lines returns_to_feeds trim_feeds
normalize_pem b = trim_feeds (returns_to_feeds (unix_lines b)) ++ line_feed ∷ []
