-- ===== src/Nas/Sizes.antt =====
-- `Size` of internal/nas/lftp.go: the bytes that a transfer has left on the NAS. What the SFTP server
-- of a session answers is a parameter, and so is which errors mean that a path does not exist.
pub mod Counting
use sftp_relay.Base.{
  ℕ, Text, List, [], ◌∷◌, ◌++◌, Bool, not, if◌then◌else◌, codes, Error, Result, ok, err,
}
use sftp_relay.Base.Int.{ℤ, pos}
use sftp_relay.Base.Files.{Info, Visit, visited, unreadable, cancelled, added_size}
use sftp_relay.Base.Path.{dir}
use sftp_relay.Base.Splitting.{join, base}
use sftp_relay.Nas.Client.{Session, Client, Wire, with_session}

pub record Files : Type 0 where
  pub stat : Text → Result Info
  pub walk : Text → List Visit

-- The name of a file that lftp has not finished.
abbrev pub unfinished : Text → Text
unfinished p = join (dir p) (codes ".in." ++ base p)

-- A file that vanishes during the walk is passed over.
unfoldable pub walked : List Visit → ℤ → Result (Unit {0}) × ℤ
walked [] total = (ok tt, total)
walked (visited fi ∷ vs) total = walked vs (added_size fi total)
walked (unreadable e ∷ vs) total = walked vs total
walked (cancelled e ∷ vs) total = (err e, total)

module _ (is_missing is_broken : Error → Bool) (files : Session → Files) where
  abbrev pub or_unfinished : Files → Text → Result Info → Result Info
  or_unfinished f p (ok fi) = ok fi
  or_unfinished f p (err e) = if is_missing e then f.stat (unfinished p) else err e

  -- What is not there yet has no bytes.
  abbrev pub counted : Files → Text → Result Info → Result (Unit {0}) × ℤ
  counted f p (err e) = if is_missing e then (ok tt, pos 0) else (err e, pos 0)
  counted f p (ok fi) = if not fi.is_dir then (ok tt, fi.size) else walked (f.walk p) (pos 0)

  -- The closure sets the total back before it counts.
  abbrev pub size_on : Text → Session → ℤ → Result (Unit {0}) × ℤ
  size_on p s total = let f = files s in counted f p (or_unfinished f p (f.stat p))

  abbrev pub sized : Result (Unit {0}) × Client × ℤ → Result ℤ × Client
  sized (err e, c, total) = (err e, c)
  sized (ok u, c, total) = (ok total, c)

  unfoldable pub size : Text → Wire → Wire → Client → Result ℤ × Client
  unfolding with_session walked
  size p w w' c = sized (with_session is_broken (size_on p) w w' c (pos 0))
