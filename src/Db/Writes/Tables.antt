-- ===== src/Db/Writes/Tables.antt =====
-- The keys of the tables, and what one change of a table keeps of them (internal/db/repo.go).
use sftp_relay.Base.{
  ℕ, suc, ◌≤◌, ◌<◌, Bool, true, false, List, ◌∷◌, keep, map, if◌then◌else◌, ◌≡◌, refl, sym, ◌∙◌,
  subst, arith, All, All-keep, All-imp, ok, err, Error, not_found,
}
use sftp_relay.Db.Rows.{Server, Job, LogLine, Database, owned}
use sftp_relay.Db.Queue.{at_job, update_job}
use sftp_relay.Db.Order.{Newest, Newest-keep, Newest-map, All-map, All-kept, All-kept_test}
use sftp_relay.Db.Writes.{or_old, or_old_id}
use sftp_relay.Db.Writes.Keys.{has_owner, has_row, has_row-map, has_row-cons}

abbrev pub job_id : Job → ℕ
job_id j = j.id

abbrev pub line_id : LogLine → ℕ
line_id l = l.id

abbrev pub InRange : ℕ → ℕ → Type 0
InRange last i = (1 ≤ i) × (i ≤ last)

abbrev pub HasOwner : List Server → Job → Type 0
HasOwner ss j = has_owner ss j.server_id ≡ true

abbrev pub IsOwned : List Job → LogLine → Type 0
IsOwned js l = owned js l ≡ true

-- The keys of the tables: ids that were given fall, newest first, between one and the counter; each
-- job has its server, and each line of the log its job.
pub record IsSound (db : Database) : Type 0 where
  pub job_order : Newest job_id db.jobs
  pub job_range : All (λ j. InRange db.last_job j.id) db.jobs
  pub job_owners : All (HasOwner db.servers) db.jobs
  pub log_order : Newest line_id db.log
  pub log_range : All (λ l. InRange db.last_log l.id) db.log
  pub log_owners : All (IsOwned db.jobs) db.log

-- Writes to the servers table.
pub servers-IsSound :
    (db : Database) (ss : List Server) (n : ℕ)
    → ((i : ℕ) → has_owner db.servers i ≡ true → has_owner ss i ≡ true)
    → IsSound db
    → IsSound (record db { servers = ss; last_server = n })
servers-IsSound db ss n keeps h = record {
  job_order = h.job_order;
  job_range = h.job_range;
  job_owners =
      All-imp (HasOwner db.servers) (HasOwner ss) (λ j. keeps j.server_id) db.jobs h.job_owners;
  log_order = h.log_order;
  log_range = h.log_range;
  log_owners = h.log_owners;
}

-- An update of rows that touches no key.
pub jobs-IsSound :
    (db : Database) (f : Job → Job)
    → ((j : Job) → (f j).id ≡ j.id)
    → ((j : Job) → (f j).server_id ≡ j.server_id)
    → IsSound db
    → IsSound (record db { jobs = map f db.jobs })
jobs-IsSound db f same_id same_server h = record {
  job_order = Newest-map job_id f same_id db.jobs h.job_order;
  job_range =
      All-map (λ j. InRange db.last_job j.id) f (λ j. subst (InRange db.last_job) (sym (same_id j)))
        db.jobs h.job_range;
  job_owners =
      All-map (HasOwner db.servers) f
        (λ j. subst (λ i. has_owner db.servers i ≡ true) (sym (same_server j))) db.jobs
        h.job_owners;
  log_order = h.log_order;
  log_range = h.log_range;
  log_owners =
      All-imp (IsOwned db.jobs) (IsOwned (map f db.jobs))
        (λ l o. has_row-map f same_id db.jobs l.job_id ∙ o) db.log h.log_owners;
}

-- A delete of jobs, with the lines of their logs.
pub kept-IsSound :
    (db : Database) (p : Job → Bool) (ss : List Server)
    → ((j : Job) → p j ≡ true → HasOwner db.servers j → HasOwner ss j)
    → IsSound db
    → IsSound (record db {
      servers = ss;
      jobs = keep p db.jobs;
      log = keep (owned (keep p db.jobs)) db.log;
    })
kept-IsSound db p ss still h = record {
  job_order = Newest-keep job_id p db.jobs h.job_order;
  job_range = All-keep (λ j. InRange db.last_job j.id) p db.jobs h.job_range;
  job_owners = All-kept (HasOwner db.servers) (HasOwner ss) p still db.jobs h.job_owners;
  log_order = Newest-keep line_id (owned (keep p db.jobs)) db.log h.log_order;
  log_range = All-keep (λ l. InRange db.last_log l.id) (owned (keep p db.jobs)) db.log h.log_range;
  log_owners = All-kept_test (owned (keep p db.jobs)) db.log;
}

pub created_job-IsSound :
    (db : Database) (j : Job)
    → j.id ≡ suc db.last_job
    → HasOwner db.servers j
    → IsSound db
    → IsSound (record db { jobs = j ∷ db.jobs; last_job = suc db.last_job })
created_job-IsSound db j given owner h = record {
  job_order = (
    All-imp (λ k. InRange db.last_job k.id) (λ k. k.id < j.id) (λ k r. omega (arith, r.1, given))
        db.jobs h.job_range,
    h.job_order,
  );
  job_range = (
    (omega (arith, given), omega (arith, given)),
    All-imp (λ k. InRange db.last_job k.id) (λ k. InRange (suc db.last_job) k.id)
        (λ k r. (r.0, omega (arith, r.1))) db.jobs h.job_range,
  );
  job_owners = (owner, h.job_owners);
  log_order = h.log_order;
  log_range = h.log_range;
  log_owners =
      All-imp (IsOwned db.jobs) (IsOwned (j ∷ db.jobs)) (λ l. has_row-cons j db.jobs l.job_id)
        db.log h.log_owners;
}

pub appended-IsSound :
    (db : Database) (l : LogLine) (p : LogLine → Bool)
    → l.id ≡ suc db.last_log
    → IsOwned db.jobs l
    → IsSound db
    → IsSound (record db { log = keep p (l ∷ db.log); last_log = suc db.last_log })
appended-IsSound db l p given owner h = record {
  job_order = h.job_order;
  job_range = h.job_range;
  job_owners = h.job_owners;
  log_order = Newest-keep line_id p (l ∷ db.log) (
    All-imp (λ k. InRange db.last_log k.id) (λ k. k.id < l.id) (λ k r. omega (arith, r.1, given))
        db.log h.log_range,
    h.log_order,
  );
  log_range =
      All-keep (λ k. InRange (suc db.last_log) k.id) p (l ∷ db.log)
        (
          (omega (arith, given), omega (arith, given)),
          All-imp (λ k. InRange db.last_log k.id) (λ k. InRange (suc db.last_log) k.id)
              (λ k r. (r.0, omega (arith, r.1))) db.log h.log_range,
        );
  log_owners = All-keep (IsOwned db.jobs) p (l ∷ db.log) (owner, h.log_owners);
}

pub if_IsSound :
    (db after : Database) (b : Bool) (e : Error)
    → IsSound db
    → (b ≡ true → IsSound after)
    → IsSound (or_old db (if b then ok after else err e))
if_IsSound db after true e h k = k refl
if_IsSound db after false e h k = h

pub if_IsSound_id :
    (db after : Database) (id : ℕ) (b : Bool) (e : Error)
    → IsSound db
    → (b ≡ true → IsSound after)
    → IsSound (or_old_id db (if b then ok (id, after) else err e))
if_IsSound_id db after id true e h k = k refl
if_IsSound_id db after id false e h k = h

pub update_job-IsSound :
    (db : Database) (id : ℕ) (f : Job → Job)
    → ((j : Job) → (f j).id ≡ j.id)
    → ((j : Job) → (f j).server_id ≡ j.server_id)
    → IsSound db
    → IsSound (or_old db (update_job id f db))
update_job-IsSound db id f same_id same_server h =
    if_IsSound db (record db { jobs = map (at_job id f) db.jobs }) (has_row db.jobs id)
      (not_found id) h
      (λ there.
        jobs-IsSound db (at_job id f) (λ j. ground (arith, same_id j))
          (λ j. ground (arith, same_server j)) h)
