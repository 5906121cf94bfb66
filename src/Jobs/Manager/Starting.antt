-- ===== src/Jobs/Manager/Starting.antt =====
-- A tick of the scheduler starts the oldest waiting job (internal/jobs/manager.go).
use sftp_relay.Base.{
  ℕ, suc, none, List, [], ◌∷◌, take, keep, true, false, ◌||◌, ◌==◌, str_eq, eq_iff, if◌then◌else◌,
  ◌≡◌, refl, sym, ap, ◌∙◌, subst, arith, ok, Bool-cases, inl, inr,
}
use mathlib.Core.List.{reverse}
use sftp_relay.Db.Rows.{Job, Database, blank}
use sftp_relay.Db.Queue.{get_job, set_job_status, joined, is_waiting, runnable_jobs, with_status}
use sftp_relay.Db.Queue.Lookup.{set_job_status-Updates}
use sftp_relay.Jobs.State.{status_running, transition}
use sftp_relay.Jobs.Manager.{Manager, seconds, if_legal, without_key}
use sftp_relay.Jobs.Manager.Schedule.{free, plan, start_next, start_job, after_mark}
use sftp_relay.Jobs.Manager.Effects.{start_job-get_job}

keep_first :
    (js : List Job) (j : Job) (rest : List Job)
    → keep is_waiting js ≡ j ∷ rest
    → is_waiting j ≡ true
keep_first [] j rest h = cc
keep_first (k ∷ js) j rest h = elim (Bool-cases (is_waiting k)) [
  | inl w ↦
      let same : k ≡ j = ap (λ l. elim l [ [] ↦ k | i ∷ is ↦ i ]) (rw w at h) in
      ap is_waiting (sym same) ∙ w
  | inr w ↦ keep_first js j rest (rw w at h)
]

waiting_runs : (j : Job) → is_waiting j ≡ true → transition j.status status_running ≡ none
unfolding transition
waiting_runs j h = elim (Bool-cases (str_eq "queued" j.status)) [
  | inl e ↦ subst (λ s. transition s status_running ≡ none) ((eq_iff "queued" j.status).0 e) refl
  | inr e ↦ elim (Bool-cases (str_eq "interrupted" j.status)) [
    | inl i ↦
        subst (λ s. transition s status_running ≡ none) ((eq_iff "interrupted" j.status).0 i) refl
    | inr i ↦ cc (rw (e, i) at h)
  ]
]

-- The oldest job that waits.
abbrev pub IsNext : Job → List Job → Manager → Type 0
IsNext j rest m =
    (keep is_waiting (reverse (joined m.db.servers m.db.jobs)) ≡ j ∷ rest)
    × (get_job j.id m.db ≡ ok j)

planned :
    (m : Manager) (j : Job) (rest : List Job) (k : ℕ)
    → m.stopping ≡ false
    → free m ≡ suc k
    → IsNext j rest m
    → plan m ≡ record m { waiting = j ∷ take k rest }
unfolding plan runnable_jobs
planned m j rest k going slot (queue, found) =
    let all = keep is_waiting (reverse (joined m.db.servers m.db.jobs)) in
    let goes : (suc k == 0 || m.stopping) ≡ false = ground (arith, going) in
    ap (λ n. if n == 0 || m.stopping then m else record m { waiting = take n all }) slot
    ∙ ap (λ b. if b then m else record m { waiting = take (suc k) all }) goes
    ∙ ap (λ l. record m { waiting = take (suc k) l }) queue

marked :
    (m : Manager) (j : Job) (db : Database)
    → m.stopping ≡ false
    → ((after_mark j (ok db) m).running ≡ j.id ∷ without_key j.id m.running)
      × ((after_mark j (ok db) m).waiting ≡ m.waiting)
marked m j db going = (rw going refl, rw going refl)

-- The job whose turn it is runs, and the others still wait.
abbrev pub Started : ℕ → Job → List Job → List ℕ → Manager → Type 0
Started now j rest running after =
    (get_job j.id after.db ≡ ok (with_status (seconds now) status_running blank none j))
    × (after.running ≡ j.id ∷ without_key j.id running)
    × (after.waiting ≡ rest)

start_job-Started :
    (now : ℕ) (m : Manager) (j : Job)
    → m.stopping ≡ false
    → is_waiting j ≡ true
    → get_job j.id m.db ≡ ok j
    → Started now j m.waiting m.running (start_job now j m)
start_job-Started now m j going waits found =
    let legal = waiting_runs j waits in
    let u = set_job_status-Updates (seconds now) j.id status_running blank none m.db j refl found in
    let same : start_job now j m ≡ after_mark j (ok u.0) m =
      ap
        (λ o.
          if_legal o
            (after_mark j (set_job_status (seconds now) j.id status_running blank none m.db) m) m)
        legal
      ∙ ap (λ r. after_mark j r m) u.1 in
    let there = marked m j u.0 going in
    (
      start_job-get_job now j m j legal found,
      ap (λ n. n.running) same ∙ there.0,
      ap (λ n. n.waiting) same ∙ there.1,
    )

-- While the manager is not stopping and has a slot to spare, one tick starts the job that has waited
-- longest: if nothing comes between, its row says running, from this moment on, and it is among the
-- running jobs; only those that wait behind it, as many as there are other slots, are left for the
-- rounds that follow.
pub start_next-starts_oldest :
    (now : ℕ) (m : Manager) (j : Job) (rest : List Job) (k : ℕ)
    → m.stopping ≡ false
    → free m ≡ suc k
    → IsNext j rest m
    → Started now j (take k rest) m.running (start_next now (plan m))
unfolding start_next
start_next-starts_oldest now m j rest k going slot next =
    subst (λ n. Started now j (take k rest) m.running (start_next now n))
      (sym (planned m j rest k going slot next))
      (start_job-Started now (record m { waiting = take k rest }) j going
        (keep_first (reverse (joined m.db.servers m.db.jobs)) j rest next.0) next.1)
