-- ===== src/Db/Queue.antt =====
-- The jobs table of internal/db/repo.go.
pub mod Lookup
pub mod Rows
pub mod Purging
use sftp_relay.Base.{
  ℕ, suc, ◌+◌, ◌*◌, ◌-◌, String, Text, Option, none, some, List, [], ◌∷◌, ◌++◌, map, Bool, true,
  false, not, ◌||◌, ◌&&◌, first, keep, take, length, str_eq, ◌==◌, ltb, if◌then◌else◌, Error,
  not_found, Result, ok, err, contains,
}
use mathlib.Core.List.{reverse}
use sftp_relay.Base.Int.{ℤ, pos}
use sftp_relay.Db.Rows.{
  Server, Job, Message, blank, interrupted_by_restart, Database, has_server, has_job, owned,
  constraint,
}
use sftp_relay.Db.Servers.{or_not_found, is_present}

-- The CHECK constraints of the table.
abbrev pub kind_allowed : String → Bool
kind_allowed k = str_eq k "file" || str_eq k "dir"

abbrev pub status_allowed : String → Bool
status_allowed s =
    contains s
      ("queued" ∷ "running" ∷ "paused" ∷ "done" ∷ "failed" ∷ "cancelled" ∷ "interrupted" ∷ [])

-- INNER JOIN servers AS s ON s.id = j.server_id
abbrev pub join_row : Option Server → Job → List Job → List Job
join_row none j rest = rest
join_row (some s) j rest = record j { server_name = s.name } ∷ rest

unfoldable pub joined : List Server → List Job → List Job
joined ss [] = []
joined ss (j ∷ js) = join_row (first (has_server j.server_id) ss) j (joined ss js)

unfoldable pub get_job : ℕ → Database → Result Job
unfolding joined
get_job id db = or_not_found id (first (has_job id) (joined db.servers db.jobs))

abbrev pub on_page : String → ℕ → Job → Bool
on_page status cursor j =
    (str_eq status "" || str_eq j.status status) && (cursor == 0 || ltb j.id cursor)

unfoldable pub list_jobs : String → ℕ → ℕ → Database → List Job
unfolding joined
list_jobs status limit cursor db =
    take limit (keep (on_page status cursor) (joined db.servers db.jobs))

-- The insert gives the columns that it names; the others have their defaults.
abbrev pub inserted : ℕ → ℕ → Job → Job
inserted id now j = record {
  id = id;
  server_id = j.server_id;
  server_name = [];
  kind = j.kind;
  remote_path = j.remote_path;
  dest_path = j.dest_path;
  status = j.status;
  total_bytes = j.total_bytes;
  transferred_bytes = pos 0;
  speed_bps = pos 0;
  eta_seconds = pos 0;
  exit_code = none;
  error = blank;
  created_at = now;
  started_at = none;
  finished_at = none;
}

unfoldable pub create_job : ℕ → Job → Database → Result (ℕ × Database)
create_job now j db =
    if is_present (first (has_server j.server_id) db.servers)
      && kind_allowed j.kind
      && status_allowed j.status
    then (let id = suc db.last_job in
        ok (id, record db { jobs = inserted id now j ∷ db.jobs; last_job = id }))
    else err constraint

-- UPDATE jobs … WHERE id = ?
abbrev pub at_job : ℕ → (Job → Job) → Job → Job
at_job id f j = if j.id == id then f j else j

abbrev pub update_job : ℕ → (Job → Job) → Database → Result Database
update_job id f db =
    if is_present (first (has_job id) db.jobs)
    then ok (record db { jobs = map (at_job id f) db.jobs })
    else err (not_found id)

-- The stamps of `SetJobStatus`.
abbrev pub with_status : ℕ → String → Message → Option ℤ → Job → Job
with_status now status msg code j = record j {
  status = status;
  error = msg;
  exit_code = code;
  started_at = if str_eq status "running" then some now else j.started_at;
  finished_at =
      if contains status ("done" ∷ "failed" ∷ "cancelled" ∷ []) then some now else j.finished_at;
}

unfoldable pub set_job_status : ℕ → ℕ → String → Message → Option ℤ → Database → Result Database
set_job_status now id status msg code db =
    if is_present (first (has_job id) db.jobs) && not (status_allowed status)
    then err constraint
    else update_job id (with_status now status msg code) db

abbrev pub with_progress : ℤ → ℤ → ℤ → Job → Job
with_progress transferred speed eta j = record j {
  transferred_bytes = transferred;
  speed_bps = speed;
  eta_seconds = eta;
}

unfoldable pub set_job_progress : ℕ → ℤ → ℤ → ℤ → Database → Result Database
set_job_progress id transferred speed eta db =
    update_job id (with_progress transferred speed eta) db

unfoldable pub set_job_total : ℕ → ℤ → Database → Result Database
set_job_total id total db = update_job id (λ j. record j { total_bytes = total }) db

abbrev pub is_waiting : Job → Bool
is_waiting j = contains j.status ("queued" ∷ "interrupted" ∷ [])

-- Oldest first.
unfoldable pub runnable_jobs : ℕ → Database → List Job
unfolding joined
runnable_jobs limit db = take limit (keep is_waiting (reverse (joined db.servers db.jobs)))

abbrev pub is_running : Job → Bool
is_running j = str_eq j.status "running"

abbrev pub interrupted : Job → Job
interrupted j =
    if is_running j then record j { status = "interrupted"; error = interrupted_by_restart } else j

unfoldable pub interrupt_running_jobs : Database → Database × ℕ
interrupt_running_jobs db =
    (record db { jobs = map interrupted db.jobs }, length (keep is_running db.jobs))

-- A delete takes the log lines of the deleted jobs with it.
abbrev pub delete_where : (Job → Bool) → Database → Database
delete_where p db =
    let jobs = keep (λ j. not (p j)) db.jobs in
    record db { jobs = jobs; log = keep (owned jobs) db.log }

unfoldable pub delete_job : ℕ → Database → Result Database
delete_job id db =
    if is_present (first (has_job id) db.jobs)
    then ok (delete_where (has_job id) db)
    else err (not_found id)

abbrev pub seconds_per_day : ℕ
seconds_per_day = 86400

-- `created_at < datetime('now', '-N days')`, with the subtraction on the other side.
abbrev pub is_purged : ℕ → ℕ → Job → Bool
is_purged now days j =
    contains j.status ("done" ∷ "failed" ∷ "cancelled" ∷ [])
    && ltb (j.created_at + days * seconds_per_day) now

unfoldable pub purge_jobs : ℕ → ℕ → Database → Database × ℕ
purge_jobs now days db =
    (delete_where (is_purged now days) db, length (keep (is_purged now days) db.jobs))
