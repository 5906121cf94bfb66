-- ===== src/Examples/Db.antt =====
-- Concrete rows (internal/db/repo.go).
use mathlib.Core.List.{reverse}
use sftp_relay.Base.{
  List, [], ◌∷◌, codes, arith, take, ℕ, String, none, ◌≡◌, refl, ok, ◌==◌, if◌then◌else◌,
}
use sftp_relay.Db.Rows.{Database, blank}
use sftp_relay.Db.Servers.{get_server}
use sftp_relay.Db.Queue.{get_job, joined}
use sftp_relay.Db.Logs.{append_job_log, job_log}
use sftp_relay.Db.Logs.Ring.{append_job_log-job_log}
use sftp_relay.Db.Writes.{
  Write, creates_job, logs, sets_status, deletes_job, purges, deletes_server,
}
use sftp_relay.Db.Writes.Tables.{IsSound}
use sftp_relay.Examples.{seedbox, film, film_read, database_7}

pub found_7 : (status : String) → get_job 7 (database_7 status) ≡ ok (film_read 7 status)
unfolding get_job joined
found_7 status = refl

pub found_5 : (status : String) → get_job 5 (database_7 status) ≡ ok (film_read 5 "done")
unfolding get_job joined
found_5 status = refl

pub found_server_1 : (status : String) → get_server 1 (database_7 status) ≡ ok seedbox
unfolding get_server
found_server_1 status = refl

pub IsSound-7 : (status : String) → IsSound (database_7 status)
IsSound-7 status = record {
  job_order = ((omega arith, (omega arith, tt)), ((omega arith, tt), (tt, tt)));
  job_range =
      ((omega arith, omega arith), ((omega arith, omega arith), ((omega arith, omega arith), tt)));
  job_owners = (refl, (refl, (refl, tt)));
  log_order = tt;
  log_range = tt;
  log_owners = tt;
}

abbrev writes : List Write
writes =
    creates_job 900 (film 0 "queued")
    ∷ logs 8 (codes "started") 200
    ∷ sets_status 901 8 "done" blank none
    ∷ deletes_job 7
    ∷ purges 100000000 1
    ∷ deletes_server 1
    ∷ []

append_job_log-job_log_example :
    (after : Database) × (append_job_log 7 (codes "started") 200 (database_7 "running") ≡ ok after)
    × ((i : ℕ)
        → job_log i after ≡ (
            if i == 7
            then reverse (take 200 (codes "started" ∷ reverse (job_log 7 (database_7 "running"))))
            else job_log i (database_7 "running")))
append_job_log-job_log_example =
    append_job_log-job_log 7 (codes "started") 200 (database_7 "running") refl (IsSound-7 "running")
