-- ===== src/Db/Rows.antt =====
-- The row types of internal/db/repo.go. A timestamp is a number of seconds; the text that SQLite
-- stores is ordered as the numbers are.
use sftp_relay.Base.{
  ℕ, String, Text, Option, none, some, List, Bool, true, false, first, codes, ◌==◌, Error, external,
}
use sftp_relay.Base.Int.{ℤ}

pub record Server : Type 0 where
  pub id : ℕ
  pub name : Text
  pub host : Text
  pub port : ℤ
  pub username : Text
  pub auth_type : String
  pub password : Text
  pub private_key : Text
  pub passphrase : Text
  pub host_key : Text
  pub default_remote_path : Text

-- The texts that the program writes into the error column.
pub data Message : Type 0 where
  blank cancelled_by_user interrupted_by_restart : Message
  lftp_exited : ℤ → Message
  message_of : Error → Message

pub record Job : Type 0 where
  pub id : ℕ
  pub server_id : ℕ
  pub server_name : Text
  pub kind : String
  pub remote_path : Text
  pub dest_path : Text
  pub status : String
  pub total_bytes : ℤ
  pub transferred_bytes : ℤ
  pub speed_bps : ℤ
  pub eta_seconds : ℤ
  pub exit_code : Option ℤ
  pub error : Message
  pub created_at : ℕ
  pub started_at : Option ℕ
  pub finished_at : Option ℕ

pub record LogLine : Type 0 where
  pub id : ℕ
  pub job_id : ℕ
  pub line : Text

-- The tables, each with its AUTOINCREMENT counter: the last id that was given. Rows stand newest
-- first, so that a table read from its head is in descending order of ids. A job row is stored with
-- a blank `server_name`, which a query fills in from the servers table.
pub record Database : Type 0 where
  pub servers : List Server
  pub last_server : ℕ
  pub jobs : List Job
  pub last_job : ℕ
  pub log : List LogLine
  pub last_log : ℕ
  pub settings : List (String × Text)

abbrev pub has_server : ℕ → Server → Bool
has_server i s = s.id == i

abbrev pub has_job : ℕ → Job → Bool
has_job i j = j.id == i

abbrev pub is_present {ℓ} : {A : Type ℓ} → Option A → Bool
is_present none = false
is_present (some a) = true

-- The job of a log line is still there: what `ON DELETE CASCADE` leaves.
abbrev pub owned : List Job → LogLine → Bool
owned js l = is_present (first (has_job l.job_id) js)

-- A CHECK or a foreign key refuses the statement.
abbrev pub constraint : Error
constraint = external (codes "constraint failed")
