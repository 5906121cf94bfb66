-- ===== src/Nas/Output.antt =====
-- The output of a running transfer: `scanLines`, the scanner over it and the end of `stream`
-- (internal/nas/lftp.go). Output arrives in reads of any size. The limit of 64 KiB that the scanner
-- puts on one line is left out.
pub mod Lines
use sftp_relay.Base.{
  ℕ, zero, suc, Text, List, [], ◌∷◌, ◌++◌, map, Bool, true, false, ◌&&◌, ◌||◌, not, Option, none,
  some, text_eq, length, take, keep, ◌==◌, if◌then◌else◌, Error, external, codes,
}
use sftp_relay.Base.Int.{ℤ, pos, negsuc}
use sftp_relay.Base.Splitting.{trim_right, is_nonempty}

abbrev pub ends_line : ℕ → Bool
ends_line c = c == 13 || c == 10

abbrev pub drop {ℓ} : {A : Type ℓ} → ℕ → List A → List A
drop zero xs = xs
drop (suc n) [] = []
drop (suc n) (x ∷ xs) = drop n xs

-- bytes.IndexAny(data, "\r\n")
abbrev pub one_later : Option ℕ → Option ℕ
one_later none = none
one_later (some i) = some (suc i)

unfoldable pub line_end : Text → Option ℕ
line_end [] = none
line_end (c ∷ s) = let rest = one_later (line_end s) in if ends_line c then some 0 else rest

-- How far the scanner moves, and the line if there is one.
abbrev pub cut_at : Text → Bool → Option ℕ → ℕ × Option Text
cut_at text at_end (some i) = (suc i, some (take i text))
cut_at text at_end none = if at_end then (length text, some text) else (0, none)

unfoldable pub scan_lines : Text → Bool → ℕ × Option Text
unfolding line_end
scan_lines text at_end =
    if at_end && text_eq text [] then (0, none) else cut_at text at_end (line_end text)

-- bufio.Scanner: the lines that a buffer holds, and what is kept for the next read.
abbrev pub drain_scanned : (Text → List Text × Text) → Text → ℕ × Option Text → List Text × Text
drain_scanned next text (moved, none) = ([], text)
drain_scanned next text (moved, some l) = let (ls, rest) = next (drop moved text) in (l ∷ ls, rest)

unfoldable pub drain : ℕ → Bool → Text → List Text × Text
drain zero at_end text = ([], text)
drain (suc fuel) at_end text = drain_scanned (drain fuel at_end) text (scan_lines text at_end)

abbrev pub drain_all : Bool → Text → List Text × Text
drain_all at_end text = drain (suc (length text)) at_end text

unfoldable pub scan_reads : Text → List Text → List Text
unfolding drain
scan_reads buffer [] = (drain_all true buffer).0
scan_reads buffer (r ∷ rs) =
    let (ls, rest) = drain_all false (buffer ++ r) in ls ++ scan_reads rest rs

abbrev pub is_blank : ℕ → Bool
is_blank c = c == 32 || c == 9

-- The lines that `onLine` is called with.
unfoldable pub reported : List Text → List Text
unfolding scan_reads trim_right
reported reads = keep is_nonempty (map (trim_right is_blank) (scan_reads [] reads))

-- How a session ends: the command stops, or the context does, and then the signal is sent.
pub data Ended : Type 0 where
  exit_status : ℤ → Ended
  broke : Error → Ended
  gave_up : Error → Option Error → Ended

-- The exit code and the error that `stream` returns.
unfoldable pub outcome : Ended → ℤ × Option Error
outcome (exit_status n) = (n, none)
outcome (broke e) = (negsuc 0, some e)
outcome (gave_up cause (some e)) = (pos 0, some e)
outcome (gave_up cause none) = (negsuc 0, some cause)
