-- ===== src/Api/Jobs/Creating.antt =====
-- The jobs that a request creates (internal/api/jobs.go).
use sftp_relay.Base.{
  map, ℕ, Text, Bool, true, false, List, [], ◌∷◌, ◌++◌, ◌≡◌, All, Result, ok, err,
}
use sftp_relay.Db.Rows.{Job, Database}
use sftp_relay.Jobs.State.{status_queued}
use sftp_relay.Jobs.View.{View}
use sftp_relay.Jobs.Manager.{Manager}
use sftp_relay.Api.{Body, jobs_body}
use sftp_relay.Api.Jobs.{Item, queued_job, is_root_source}
use sftp_relay.Sftp.{clean_path}

-- A view of a queued job that goes to `dest`.
abbrev pub GoesTo : Text → View → Type 0
GoesTo dest v = (v.dest_path ≡ dest) × (v.status ≡ status_queued)

abbrev is_jobs : Body → Bool
is_jobs (jobs_body vs) = true
is_jobs _ = false

abbrev views_or : List View → Body → List View
views_or d (jobs_body vs) = vs
views_or d _ = d

-- The row of an item, where its server is there.
module _ (now server_id : ℕ) (remote dest : Text) (is_dir : Bool) (db : Database) where
  abbrev asked : Job
  asked = queued_job server_id remote dest is_dir

-- What an item adds to the views, if it succeeds.
abbrev Adds : Text → Item → List View → Result (List View) → Type 0
Adds dest item created (err e) = Unit
Adds dest item created (ok vs) =
    (v : View) × (vs ≡ created ++ v ∷ []) × GoesTo dest v × (v.remote_path ≡ clean_path item.path)

-- The views that the rest of the items add.
record Rest (dest : Text) (items : List Item) (created vs : List View) : Type 0 where
  more : List View
  all : vs ≡ created ++ more
  sources : map (λ v. v.remote_path) more ≡ map (λ i. clean_path i.path) items
  ends : All (GoesTo dest) more
  no_roots : All (λ i. is_root_source i ≡ false) items
