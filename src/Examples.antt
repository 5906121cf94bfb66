-- ===== src/Examples.antt =====
-- A small relay with one server and three jobs, on which the theorems are applied.
mod State
mod Tracker
mod Events
mod Db
mod Pool
pub mod Paths
mod Requests
mod Quotes
pub mod Sftp
pub mod Lftp
pub mod Nas
mod Config
pub mod Listing
mod Web
use sftp_relay.Base.{ℕ, String, Option, none, some, List, [], ◌∷◌, codes, true, false}
use sftp_relay.Base.Int.{ℤ, pos}
use sftp_relay.Db.Rows.{Server, Job, Database, blank}
use sftp_relay.Jobs.Manager.{Manager, Worker, Payload, starting}
use sftp_relay.Events.{Hub, new_hub}

abbrev pub seedbox : Server
seedbox = record {
  id = 1;
  name = codes "seedbox";
  host = codes "seed.example";
  port = pos 22;
  username = codes "me";
  auth_type = "password";
  password = codes "secret";
  private_key = [];
  passphrase = [];
  host_key = [];
  default_remote_path = codes "/srv";
}

abbrev pub film : ℕ → String → Job
film id status = record {
  id = id;
  server_id = 1;
  server_name = [];
  kind = "file";
  remote_path = codes "/srv/film.mkv";
  dest_path = codes "/volume1/media";
  status = status;
  total_bytes = pos 4000;
  transferred_bytes = pos 0;
  speed_bps = pos 0;
  eta_seconds = pos 0;
  exit_code = none;
  error = blank;
  created_at = 100;
  started_at = none;
  finished_at = none;
}

-- The row of a job as it is read, with the name of its server.
abbrev pub film_read : ℕ → String → Job
film_read id status = record (film id status) { server_name = codes "seedbox" }

-- Job 7 in some status, above a waiting one and a done one.
abbrev pub database_7 : String → Database
database_7 status = record {
  servers = seedbox ∷ [];
  last_server = 1;
  jobs = film 7 status ∷ film 6 "queued" ∷ film 5 "done" ∷ [];
  last_job = 7;
  log = [];
  last_log = 0;
  settings = ("concurrency", codes "1") ∷ [];
}

abbrev pub worker_7 : Worker
worker_7 = record { job = film_read 7 "running"; cancelled = false; phase = starting }

abbrev pub empty_hub : Hub Payload
empty_hub = new_hub Payload

-- Job 7 is in the map of running jobs, whatever its row says.
abbrev pub busy : String → Manager
busy status = record {
  db = database_7 status;
  hub = empty_hub;
  running = 7 ∷ [];
  workers = worker_7 ∷ [];
  waiting = [];
  stopping = false;
  started = true;
  kills = [];
}

abbrev pub idle : String → Manager
idle status = record (busy status) { running = []; workers = [] }
