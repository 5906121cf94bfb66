-- ===== src/Jobs/Manager/Calls.antt =====
-- The calls of the API on internal/jobs/manager.go start no job and leave the settings alone.
use sftp_relay.Base.{
  ℕ, String, Text, none, List, Bool, true, false, ◌≡◌, refl, sym, ap, arith, inl, inr, subst,
  Result, ok, err, Error, not, ◌∙◌, ◌>>=◌, ◌⊎◌, map, ◌&&◌, ◌||◌, first, if◌then◌else◌, not_finished,
}
use sftp_relay.Db.Rows.{Job, Database, has_server, cancelled_by_user}
use sftp_relay.Db.Servers.{is_present}
use sftp_relay.Db.Queue.{
  set_job_status, create_job, purge_jobs, get_job, kind_allowed, status_allowed,
}
use sftp_relay.Db.Logs.{has_id}
use sftp_relay.Events.{type_done}
use sftp_relay.Jobs.State.{transition, terminal, status_cancelled}
use sftp_relay.Jobs.Manager.{Manager, seconds, publish_job, cleanup}
use sftp_relay.Jobs.Manager.Schedule.{purge, retention}
use sftp_relay.Jobs.Manager.Commands.{
  cancel_row, cancel_context_of, cancel_context, stop_worker, signal, check, fail_unless, clone,
  retry, announce, stop,
}
use sftp_relay.Jobs.Manager.Quiet.{
  Quiet, Quiet-refl, Quiet-trans, Quiet-if, Settled, set_job_status-Settled, publish_job-Quiet,
}
use sftp_relay.Jobs.Manager.Steps.{or_same, or_same_db, or_same_retry}

-- A call that changes nothing but the database and the other fields that do not count.
Settled-ok :
    (s : List (String × Text)) (r : Result Database) (db : Database)
    → Settled s r
    → r ≡ ok db
    → db.settings ≡ s
Settled-ok s r db h e = subst (Settled s) e h

module _ (m : Manager) where
  db-Quiet : (db : Database) → db.settings ≡ m.db.settings → Quiet m (record m { db = db })
  db-Quiet db h = record { same_settings = h; no_more_running = omega arith; same_waiting = refl }

  bind-Quiet {ℓ} :
      {A : Type ℓ} (r : Result A) (k : A → Result Manager)
      → ((a : A) → r ≡ ok a → Quiet m (or_same m (k a)))
      → Quiet m (or_same m (r >>= k))
  bind-Quiet (ok a) k q = q a refl
  bind-Quiet (err e) k q = Quiet-refl m

  bind_retry-Quiet {ℓ} :
      {A : Type ℓ} (r : Result A) (k : A → Result (ℕ × Manager))
      → ((a : A) → r ≡ ok a → Quiet m (or_same_retry m (k a)))
      → Quiet m (or_same_retry m (r >>= k))
  bind_retry-Quiet (ok a) k q = q a refl
  bind_retry-Quiet (err e) k q = Quiet-refl m

abbrev settings_in : Database → Result (ℕ × Database) → List (String × Text)
settings_in db (ok got) = got.1.settings
settings_in db (err e) = db.settings

Result-cases {ℓ} :
    {A : Type ℓ} (r : Result A) → ((a : A) × (r ≡ ok a)) ⊎ ((e : Error) × (r ≡ err e))
Result-cases (ok a) = inl (a, refl)
Result-cases (err e) = inr (e, refl)

created-settings :
    (b : Bool) (id : ℕ) (db db' : Database) (e : Error) (got : ℕ × Database)
    → db'.settings ≡ db.settings
    → (if b then ok (id, db') else err e) ≡ ok got
    → got.1.settings ≡ db.settings
created-settings true id db db' e got same h = ap (λ r. settings_in db r) (sym h) ∙ same
created-settings false id db db' e got same h = cc

create_job-settings :
    (now : ℕ) (j : Job) (db : Database) (got : ℕ × Database)
    → create_job now j db ≡ ok got
    → got.1.settings ≡ db.settings
unfolding create_job
create_job-settings now j db got h =
    created-settings
      (is_present (first (has_server j.server_id) db.servers)
        && kind_allowed j.kind
        && status_allowed j.status)
      _ db _ _ got refl h

pub create_job-Quiet :
    (now : ℕ) (j : Job) (m : Manager) → Quiet m (or_same_db m (create_job now j m.db))
create_job-Quiet now j m = elim (Result-cases (create_job now j m.db)) [
  | inl (got, e) ↦ rw e (db-Quiet m got.1 (create_job-settings now j m.db got e))
  | inr (x, e) ↦ rw e (Quiet-refl m)
]

pub cancel_row-Quiet : (now id : ℕ) (m : Manager) → Quiet m (or_same m (cancel_row now id m))
unfolding cancel_row
cancel_row-Quiet now id m = bind-Quiet m (get_job id m.db) _ λ job _.
    bind-Quiet m (check (transition job.status status_cancelled)) _ λ u _.
      bind-Quiet m (set_job_status (seconds now) id status_cancelled cancelled_by_user none m.db) _
        λ db e.
          Quiet-trans m (record m { db = db }) (signal id (record m { db = db }))
            (db-Quiet m db (
              Settled-ok m.db.settings _ db
                (set_job_status-Settled (seconds now) id status_cancelled cancelled_by_user none
                  m.db)
                e))
            (Quiet-if (has_id id m.running) (record m { db = db })
              (cleanup id (record m { db = db })) (record m { db = db })
              (record { same_settings = refl; no_more_running = omega arith; same_waiting = refl })
              (Quiet-refl (record m { db = db })))

pub cancel_context_of-Quiet : (now id : ℕ) (m : Manager) → Quiet m (cancel_context_of now id m)
unfolding cancel_context_of
cancel_context_of-Quiet now id m =
    let stopped = record m { workers = map (cancel_context id) m.workers } in
    let quiet : Quiet m (stop_worker id m) =
      Quiet-if (has_id id m.running) m stopped m
        (record { same_settings = refl; no_more_running = omega arith; same_waiting = refl })
        (Quiet-refl m) in
    Quiet-trans m (stop_worker id m) (publish_job now type_done id (stop_worker id m)) quiet
      (publish_job-Quiet now type_done id (stop_worker id m))

pub retry-Quiet : (now id : ℕ) (m : Manager) → Quiet m (or_same_retry m (retry now id m))
unfolding retry
retry-Quiet now id m = bind_retry-Quiet m (get_job id m.db) _ λ job _.
    bind_retry-Quiet m (fail_unless (terminal job.status) (not_finished id job.status)) _ λ u _.
      bind_retry-Quiet m (create_job (seconds now) (clone job) m.db) _ λ got e. record {
        same_settings = create_job-settings (seconds now) (clone job) m.db got e;
        no_more_running = omega arith;
        same_waiting = refl;
      }

pub purge-Quiet : (now : ℕ) (m : Manager) → Quiet m (purge now m)
unfolding purge purge_jobs
purge-Quiet now m =
    Quiet-if _ m m (record m { db = (purge_jobs (seconds now) (retention m) m.db).0 })
      (Quiet-refl m) (db-Quiet m (purge_jobs (seconds now) (retention m) m.db).0 refl)

pub stop-Quiet : (m : Manager) → Quiet m (stop m)
unfolding stop
stop-Quiet m =
    Quiet-if (m.stopping || not m.started) m m _ (Quiet-refl m)
      (record { same_settings = refl; no_more_running = omega arith; same_waiting = refl })

pub announce-Quiet : (now id : ℕ) (m : Manager) → Quiet m (announce now id m)
unfolding announce publish_job
announce-Quiet now id m = record {
  same_settings = refl;
  no_more_running = omega arith;
  same_waiting = refl;
}
