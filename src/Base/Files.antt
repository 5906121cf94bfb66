-- ===== src/Base/Files.antt =====
-- What an SFTP server tells of files: fs.FileInfo, and the steps of a walk.
use Prim.Native.Nat.{ℕ}
use mathlib.Core.Bool.{Bool, not}
use sftp_relay.Base.Tests.{if◌then◌else◌}
use sftp_relay.Base.Strings.{Text}
use sftp_relay.Base.Int.{ℤ, add64}
use sftp_relay.Base.Errors.{Error}

-- The mode is the text that it is shown as.
pub record Info : Type 0 where
  pub name : Text
  pub size : ℤ
  pub mode : Text
  pub mod_time : ℕ
  pub is_dir : Bool

-- A step of a walk: a file or a directory, one that cannot be read, or the end of the context.
pub data Visit : Type 0 where
  visited : Info → Visit
  unreadable : Error → Visit
  cancelled : Error → Visit

-- The sum of sizes that the code keeps: a directory adds nothing.
abbrev pub added_size : Info → ℤ → ℤ
added_size fi total = if not fi.is_dir then add64 total fi.size else total
