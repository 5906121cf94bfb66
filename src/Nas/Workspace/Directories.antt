-- ===== src/Nas/Workspace/Directories.antt =====
-- The directories of different jobs (internal/nas/lftp.go).
use mathlib.Core.List.{append_cancel_left}
use sftp_relay.Base.{
  ℕ, Text, [], ◌++◌, ◌≡◌, refl, true, All-imp, All-append, codes, has_prefix, is_digit, arith,
  if◌then◌else◌, text_eq, trim_space,
}
use sftp_relay.Base.Path.{root}
use sftp_relay.Base.Path.Names.{IsName, IsOther}
use sftp_relay.Base.Decimal.{itoa_ℕ, itoa_ℕ-injective, itoa_ℕ-All}
use sftp_relay.Base.Splitting.Joining.{join-injective}
use sftp_relay.Nas.Workspace.{workspace_dir, runtime_dir}

digit-IsOther : (c : ℕ) → is_digit c ≡ true → IsOther c
digit-IsOther c h = ground arith

job-IsName : (job : ℕ) → IsName (codes "job-" ++ itoa_ℕ job)
job-IsName job = record {
  not_skipped = refl;
  not_back = refl;
  no_slash =
      All-append IsOther (codes "job-") (itoa_ℕ job) (refl, (refl, (refl, (refl, tt))))
        (All-imp (λ c. is_digit c ≡ true) IsOther digit-IsOther (itoa_ℕ job) (itoa_ℕ-All job));
}

-- Two jobs never run in the same directory.
pub runtime_dir-injective : (i j : ℕ) → runtime_dir i ≡ runtime_dir j → i ≡ j
unfolding runtime_dir
runtime_dir-injective i j e =
    itoa_ℕ-injective i j (append_cancel_left (codes "/tmp/sftp-relay-job-") _ _ e)

-- Where the jobs' files are staged.
abbrev pub staging : Text → Text
staging tmp = if text_eq (trim_space tmp) [] then codes "/tmp" else tmp

-- Below an absolute directory for temporary files, two jobs never share a directory, whether it is
-- the one that is uploaded to or the one that the script runs in.
pub workspace_dir-injective :
    (tmp : Text) (i j : ℕ)
    → has_prefix (staging tmp) root ≡ true
    → ((workspace_dir tmp i ≡ workspace_dir tmp j) → i ≡ j)
      × ((runtime_dir i ≡ runtime_dir j) → i ≡ j)
unfolding workspace_dir
workspace_dir-injective tmp i j h = (
  λ e. itoa_ℕ-injective i j (
      append_cancel_left (codes "job-") _ _ (
        join-injective (staging tmp) (codes "job-" ++ itoa_ℕ i) (codes "job-" ++ itoa_ℕ j) h
          (job-IsName i) (job-IsName j) e)),
  runtime_dir-injective i j,
)
