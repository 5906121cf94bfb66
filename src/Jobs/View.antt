-- ===== src/Jobs/View.antt =====
-- internal/jobs/view.go: the wire shape of a job. An absent time or exit code stays `none`.
pub mod Percent
use sftp_relay.Base.{ℕ, String, Text, Option, Bool, ◌&&◌, str_eq, ltb, if◌then◌else◌}
use sftp_relay.Base.Int.{ℤ, pos, pos_part, ltb_ℤ, mul64, quot}
use sftp_relay.Db.Rows.{Job, Message}
use sftp_relay.Jobs.State.{status_done, terminal}

pub record View : Type 0 where
  pub id : ℕ
  pub server_id : ℕ
  pub server_name : Text
  pub kind : String
  pub remote_path : Text
  pub dest_path : Text
  pub status : String
  pub total_bytes : ℤ
  pub transferred_bytes : ℤ
  pub speed_bps : ℤ
  pub eta_seconds : ℤ
  pub percent : ℤ
  pub exit_code : Option ℤ
  pub error : Message
  pub created_at : ℕ
  pub started_at : Option ℕ
  pub finished_at : Option ℕ

-- The product is an int64 and wraps around.
unfoldable pub percent : ℤ → ℤ → ℤ
percent done total =
    if ltb_ℤ (pos 0) total
    then (let p = quot (mul64 done (pos 100)) (pos_part total) in
        if ltb_ℤ (pos 100) p then pos 100 else p)
    else pos 0

unfoldable pub view_of : Job → View
view_of j = record {
  id = j.id;
  server_id = j.server_id;
  server_name = j.server_name;
  kind = j.kind;
  remote_path = j.remote_path;
  dest_path = j.dest_path;
  status = j.status;
  total_bytes = j.total_bytes;
  transferred_bytes = j.transferred_bytes;
  speed_bps = j.speed_bps;
  eta_seconds = j.eta_seconds;
  percent =
      if terminal j.status && str_eq j.status status_done
      then pos 100
      else percent j.transferred_bytes j.total_bytes;
  exit_code = j.exit_code;
  error = j.error;
  created_at = j.created_at;
  started_at = j.started_at;
  finished_at = j.finished_at;
}
