-- ===== src/Nas/Output/Lines.antt =====
-- The lines of the output, however it is cut into reads (internal/nas/lftp.go).
use sftp_relay.Base.{
  ℕ, suc, Text, List, [], ◌∷◌, ◌++◌, true, false, length, take, if◌then◌else◌, ◌≡◌, All, ◌<◌,
}
use sftp_relay.Nas.Output.{ends_line, drop}

-- The lines of a whole text; a last line may lack its end.
abbrev onto_line : ℕ → List Text → List Text
onto_line c [] = (c ∷ []) ∷ []
onto_line c (l ∷ ls) = (c ∷ l) ∷ ls

unfoldable pub lines_of : Text → List Text
lines_of [] = []
lines_of (c ∷ s) = let rest = lines_of s in if ends_line c then [] ∷ rest else onto_line c rest

abbrev IsInLine : ℕ → Type 0
IsInLine c = ends_line c ≡ false

-- Where the first line ends.
record Found (text : Text) (i : ℕ) : Type 0 where
  line : Text
  rest : Text
  mark : ℕ
  inside : All IsInLine line
  ends : ends_line mark ≡ true
  whole : text ≡ line ++ mark ∷ rest
  taken : take i text ≡ line
  dropped : drop (suc i) text ≡ rest
  shorter : length rest < length text

-- What has arrived, in one text.
abbrev pub arrived : List Text → Text
arrived [] = []
arrived (r ∷ rs) = r ++ arrived rs
