-- ===== src/Db/Writes.antt =====
-- The statements of internal/db/repo.go that write, as a sequence.
pub mod Keys
pub mod Tables
pub mod Soundness
use sftp_relay.Base.{ℕ, String, Text, Option, List, [], ◌∷◌, Result, ok, err}
use sftp_relay.Base.Int.{ℤ}
use sftp_relay.Db.Rows.{Server, Job, Message, Database}
use sftp_relay.Db.Servers.{create_server, update_server, delete_server, set_server_host_key}
use sftp_relay.Db.Queue.{
  create_job, set_job_status, set_job_progress, set_job_total, interrupt_running_jobs, delete_job,
  purge_jobs,
}
use sftp_relay.Db.Logs.{append_job_log}
use sftp_relay.Db.Settings.{set_settings}

pub data Write : Type 0 where
  creates_server updates_server : Server → Write
  deletes_server : ℕ → Write
  pins_key : ℕ → Text → Write
  creates_job : ℕ → Job → Write
  sets_status : ℕ → ℕ → String → Message → Option ℤ → Write
  sets_progress : ℕ → ℤ → ℤ → ℤ → Write
  sets_total : ℕ → ℤ → Write
  logs : ℕ → Text → ℕ → Write
  interrupts : Write
  deletes_job : ℕ → Write
  purges : ℕ → ℕ → Write
  saves : List (String × Text) → Write

-- A statement that fails changes nothing.
abbrev pub or_old : Database → Result Database → Database
or_old db (ok after) = after
or_old db (err e) = db

abbrev pub or_old_id : Database → Result (ℕ × Database) → Database
or_old_id db (ok (id, after)) = after
or_old_id db (err e) = db

unfoldable pub write : Write → Database → Database
write (creates_server s) db = or_old_id db (create_server s db)
write (updates_server s) db = or_old db (update_server s db)
write (deletes_server id) db = or_old db (delete_server id db)
write (pins_key id key) db = or_old db (set_server_host_key id key db)
write (creates_job now j) db = or_old_id db (create_job now j db)
write (sets_status now id status msg code) db = or_old db (set_job_status now id status msg code db)
write (sets_progress id transferred speed eta) db =
    or_old db (set_job_progress id transferred speed eta db)
write (sets_total id total) db = or_old db (set_job_total id total db)
write (logs id line limit) db = or_old db (append_job_log id line limit db)
write interrupts db = (interrupt_running_jobs db).0
write (deletes_job id) db = or_old db (delete_job id db)
write (purges now days) db = (purge_jobs now days db).0
write (saves kvs) db = set_settings kvs db

unfoldable pub write_all : List Write → Database → Database
unfolding write
write_all [] db = db
write_all (w ∷ ws) db = write_all ws (write w db)
