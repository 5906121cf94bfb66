-- ===== src/Nas/Lftp/Quoting.antt =====
-- The quoted texts, as the shell and lftp read them (internal/nas/lftp.go).
use mathlib.Core.Option
use sftp_relay.Base.{
  Bool, true, false, Option, none, some, [], ◌∷◌, ◌++◌, ◌==◌, if◌then◌else◌, ◌≡◌, refl, sym, ap,
  ◌∙◌, Bool-cases, inl, inr, Text, ==_iff,
}
use sftp_relay.Nas.Lftp.{quote, double_quote, backslash, escape_quotes, sh_quote}

-- A POSIX shell word, read from inside single quotes or from outside them: `none` where a character
-- stands outside quotes that the shell could act on, or where the quotes do not end.
unfoldable pub sh_word : Bool → Text → Option Text
sh_word true [] = none
sh_word true (c ∷ s) =
    let inside = sh_word true s in
    let outside = sh_word false s in if c == quote then outside else Option.map (λ w. c ∷ w) inside
sh_word false [] = some []
sh_word false (c ∷ []) = none
sh_word false (c ∷ d ∷ s) =
    let inside = sh_word true (d ∷ s) in
    let outside = sh_word false s in
    if c == quote then inside else if c == backslash then Option.map (λ w. d ∷ w) outside else none

opening : (t : Text) → sh_word false (quote ∷ t) ≡ sh_word true t
unfolding sh_word
opening [] = refl
opening (c ∷ t) = refl

escaped_word : (s : Text) → sh_word true (escape_quotes s ++ quote ∷ []) ≡ some s
unfolding sh_word escape_quotes
escaped_word [] = refl
escaped_word (c ∷ s) = elim (Bool-cases (c == quote)) [
  | inl e ↦ rw e (
      ap (Option.map (λ w. quote ∷ w)) (opening (escape_quotes s ++ quote ∷ []) ∙ escaped_word s)
      ∙ ap (λ d. some (d ∷ s)) (sym ((==_iff c quote).0 e)))
  | inr e ↦ rw (e, e) (ap (Option.map (λ w. c ∷ w)) (escaped_word s))
]

-- Whatever the value, the shell reads what `shQuote` makes of it as one word, which is the value, with
-- no character outside quotes that the shell could act on.
pub sh_word-sh_quote : (s : Text) → sh_word false (sh_quote s) ≡ some s
unfolding sh_word sh_quote
sh_word-sh_quote s = opening (escape_quotes s ++ quote ∷ []) ∙ escaped_word s

-- What lftp reads after an opening double quote, if the text ends with the closing one.
unfoldable pub lftp_inside : Text → Option Text
lftp_inside [] = none
lftp_inside (c ∷ []) = if c == double_quote then some [] else none
lftp_inside (c ∷ d ∷ s) =
    let rest = lftp_inside (d ∷ s) in
    let after = lftp_inside s in
    if c == double_quote
    then none
    else if c == backslash
    then Option.map (λ w. d ∷ w) after
    else Option.map (λ w. c ∷ w) rest

abbrev pub lftp_word : Text → Option Text
lftp_word [] = none
lftp_word (c ∷ s) = if c == double_quote then lftp_inside s else none
