-- ===== src/Db/Logs.antt =====
-- The job_log table of internal/db/repo.go.
pub mod Ring
use mathlib.Core.List.{reverse}
use sftp_relay.Base.{
  ℕ, suc, Text, List, [], ◌∷◌, map, Bool, false, not, ◌||◌, first, keep, take, ◌==◌, if◌then◌else◌,
  Result, ok, err,
}
use sftp_relay.Db.Rows.{Database, LogLine, has_job, constraint}
use sftp_relay.Db.Servers.{is_present}

abbrev pub has_id : ℕ → List ℕ → Bool
has_id i [] = false
has_id i (k ∷ ks) = i == k || has_id i ks

abbrev pub of_job : ℕ → LogLine → Bool
of_job j l = l.job_id == j

-- SELECT id FROM job_log WHERE job_id = ? ORDER BY id DESC LIMIT ?
abbrev pub newest_ids : ℕ → ℕ → List LogLine → List ℕ
newest_ids j limit ls = take limit (map (λ l. l.id) (keep (of_job j) ls))

-- What the DELETE of `AppendJobLog` leaves.
abbrev pub survives : ℕ → List ℕ → LogLine → Bool
survives j ids l = not (l.job_id == j) || has_id l.id ids

unfoldable pub append_job_log : ℕ → Text → ℕ → Database → Result Database
append_job_log j line limit db =
    if is_present (first (has_job j) db.jobs)
    then (let id = suc db.last_log in
        let new : LogLine = record { id = id; job_id = j; line = line } in
        let log = new ∷ db.log in
        ok (record db { log = keep (survives j (newest_ids j limit log)) log; last_log = id }))
    else err constraint

unfoldable pub job_log : ℕ → Database → List Text
job_log j db = reverse (map (λ l. l.line) (keep (of_job j) db.log))
