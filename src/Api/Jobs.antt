-- ===== src/Api/Jobs.antt =====
-- The jobs' handlers of internal/api/jobs.go.
pub mod Rows
pub mod Paging
pub mod Deleting
pub mod Creating
use sftp_relay.Base.{
  ℕ, suc, ◌<◌, String, Text, Bool, true, false, not, ◌||◌, ◌&&◌, Option, none, some, List, [], ◌∷◌,
  ◌++◌, map, length, ltb, ◌==◌, str_eq, text_eq, has_prefix, if◌then◌else◌, atoi, codes, Error,
  external, Result, ok, err,
}
use sftp_relay.Base.Int.{ℤ, pos, negsuc}
use sftp_relay.Base.Path.{root, slash, clean}
use sftp_relay.Sftp.{clean_path}
use sftp_relay.Db.Rows.{Job, Database, blank}
use sftp_relay.Db.Servers.{get_server}
use sftp_relay.Db.Queue.{get_job, list_jobs, create_job, delete_job}
use sftp_relay.Db.Logs.{job_log}
use sftp_relay.Jobs.State.{status_queued, terminal}
use sftp_relay.Jobs.View.{View, view_of}
use sftp_relay.Jobs.Manager.{Manager, seconds}
use sftp_relay.Jobs.Manager.Commands.{cancel, retry, announce}
use sftp_relay.Api.{
  Body, job_body, jobs_body, page_body, lines_body, no_content, problem, Reply, write_err,
  write_status, bad_request,
}

abbrev pub or_default : Option ℤ → ℕ → ℕ
or_default none fallback = fallback
or_default (some (pos n)) fallback = n
or_default (some (negsuc n)) fallback = fallback

unfoldable pub int_param : Text → ℕ → ℕ
int_param v fallback = or_default (atoi v) fallback

abbrev pub views_of : List Job → List View
views_of rows = map view_of rows

-- The id of the last row.
abbrev pub last_id : List Job → ℕ
last_id [] = 0
last_id (j ∷ []) = j.id
last_id (j ∷ k ∷ rows) = last_id (k ∷ rows)

unfoldable pub next_cursor : List Job → ℕ → ℕ
next_cursor rows limit = if ltb (length rows) limit || length rows == 0 then 0 else last_id rows

abbrev pub page_limit : ℕ → ℕ
page_limit limit = if ltb limit 1 || ltb 500 limit then 50 else limit

unfoldable pub list_jobs_handler : String → Text → Text → Manager → Manager × Reply
unfolding next_cursor int_param
list_jobs_handler status limit_text cursor_text m =
    let limit = page_limit (int_param limit_text 50) in
    let rows = list_jobs status limit (int_param cursor_text 0) m.db in
    (m, record { code = 200; body = page_body (views_of rows) (next_cursor rows limit) })

pub record Item : Type 0 where
  pub path : Text
  pub is_dir : Bool

pub record JobsInput : Type 0 where
  pub server_id : ℕ
  pub dest_path : Text
  pub items : List Item

abbrev pub queued_job : ℕ → Text → Text → Bool → Job
queued_job server_id remote dest is_dir = record {
  id = 0;
  server_id = server_id;
  server_name = [];
  kind = if is_dir then "dir" else "file";
  remote_path = remote;
  dest_path = dest;
  status = status_queued;
  total_bytes = pos 0;
  transferred_bytes = pos 0;
  speed_bps = pos 0;
  eta_seconds = pos 0;
  exit_code = none;
  error = blank;
  created_at = 0;
  started_at = none;
  finished_at = none;
}

-- What an item of `createJobs` leaves: the jobs that were created stay when a later one fails.
abbrev pub Created : Type 0
Created = Manager × Result (List View)

abbrev pub and_view : Manager → Result Job → List View → Created
and_view m (err e) created = (m, err e)
and_view m (ok row) created = (m, ok (created ++ view_of row ∷ []))

-- `Announce` comes only after the row was read again.
abbrev pub announced : ℕ → ℕ → Manager → Result Job → Manager
announced now id m (err e) = m
announced now id m (ok row) = announce now id m

abbrev pub created_row : ℕ → Manager → Result (ℕ × Database) → List View → Created
created_row now m (err e) created = (m, err e)
created_row now m (ok (id, db)) created =
    let row = get_job id db in and_view (announced now id (record m { db = db }) row) row created

abbrev pub no_root_source : Error
no_root_source = external (codes "the remote root is not a valid transfer source")

unfoldable pub create_item : ℕ → ℕ → Text → Item → Manager → List View → Created
unfolding clean_path
create_item now server_id dest item m created =
    let remote = clean_path item.path in
    created_row now m (create_job (seconds now) (queued_job server_id remote dest item.is_dir) m.db)
      created

abbrev pub is_root_source : Item → Bool
is_root_source item = text_eq (clean_path item.path) root

-- The answer of `createJobs` to an item, and what follows where it went well.
abbrev pub then_items : Created → (Manager → List View → Manager × Reply) → Manager × Reply
then_items (m, err e) next = (m, write_err e)
then_items (m, ok created) next = next m created

unfoldable pub create_items : ℕ → ℕ → Text → List Item → Manager → List View → Manager × Reply
unfolding create_item write_err clean_path
create_items now server_id dest [] m created = (m, record { code = 201; body = jobs_body created })
create_items now server_id dest (item ∷ items) m created =
    if is_root_source item
    then (m, write_status 400 no_root_source)
    else then_items (create_item now server_id dest item m created)
        (create_items now server_id dest items)

abbrev pub create_valid : ℕ → JobsInput → Manager → Result Text → Manager × Reply
create_valid now in_ m (err e) = (m, write_err e)
create_valid now in_ m (ok dest) = create_items now in_.server_id dest in_.items m []

abbrev pub create_on {ℓ} :
    {A : Type ℓ} → ℕ → (Text → Result Text) → JobsInput → Manager → Result A → Manager × Reply
create_on now valid in_ m (err e) = (m, write_err e)
create_on now valid in_ m (ok s) = create_valid now in_ m (valid in_.dest_path)

-- `valid` is `Validate` of the NAS client, which goes through `CheckPath`.
unfoldable pub create_jobs_handler :
    ℕ → (Text → Result Text) → Option JobsInput → Manager → Manager × Reply
unfolding create_items write_err
create_jobs_handler now valid none m = (m, bad_request "invalid JSON body")
create_jobs_handler now valid (some in_) m =
    if in_.server_id == 0 || length in_.items == 0
    then (m, bad_request "server_id and at least one item are required")
    else create_on now valid in_ m (get_server in_.server_id m.db)

abbrev pub reply_job : ℕ → Manager → Result Job → Manager × Reply
reply_job code m (err e) = (m, write_err e)
reply_job code m (ok row) = (m, record { code = code; body = job_body (view_of row) })

unfoldable pub get_job_handler : Option ℕ → Manager → Manager × Reply
unfolding write_err
get_job_handler none m = (m, bad_request "bad id")
get_job_handler (some id) m = reply_job 200 m (get_job id m.db)

abbrev pub reply_deleted : Manager → Result Database → Manager × Reply
reply_deleted m (err e) = (m, write_err e)
reply_deleted m (ok db) = (record m { db = db }, record { code = 204; body = no_content })

abbrev pub cancel_first : Error
cancel_first = external (codes "cancel it before deleting it")

abbrev pub delete_found : ℕ → Manager → Result Job → Manager × Reply
delete_found id m (err e) = (m, write_err e)
delete_found id m (ok row) =
    if terminal row.status
    then reply_deleted m (delete_job id m.db)
    else (m, write_status 409 cancel_first)

unfoldable pub delete_job_handler : Option ℕ → Manager → Manager × Reply
unfolding write_err
delete_job_handler none m = (m, bad_request "bad id")
delete_job_handler (some id) m = delete_found id m (get_job id m.db)

abbrev pub after_cancel : ℕ → Manager → Result Manager → Manager × Reply
after_cancel id m (err e) = (m, write_err e)
after_cancel id m (ok m') = reply_job 200 m' (get_job id m'.db)

unfoldable pub cancel_job_handler : ℕ → Option ℕ → Manager → Manager × Reply
unfolding write_err
cancel_job_handler now none m = (m, bad_request "bad id")
cancel_job_handler now (some id) m = after_cancel id m (cancel now id m)

abbrev pub after_retry : Manager → Result (ℕ × Manager) → Manager × Reply
after_retry m (err e) = (m, write_err e)
after_retry m (ok (id, m')) = reply_job 201 m' (get_job id m'.db)

unfoldable pub retry_job_handler : ℕ → Option ℕ → Manager → Manager × Reply
unfolding write_err
retry_job_handler now none m = (m, bad_request "bad id")
retry_job_handler now (some id) m = after_retry m (retry now id m)

abbrev pub reply_log : ℕ → Manager → Result Job → Manager × Reply
reply_log id m (err e) = (m, write_err e)
reply_log id m (ok row) = (m, record { code = 200; body = lines_body (job_log id m.db) })

unfoldable pub job_log_handler : Option ℕ → Manager → Manager × Reply
unfolding write_err
job_log_handler none m = (m, bad_request "bad id")
job_log_handler (some id) m = reply_log id m (get_job id m.db)
