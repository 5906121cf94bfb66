-- ===== src/Jobs/Manager/Outcomes.antt =====
-- What the end of a run records (internal/jobs/manager.go).
use sftp_relay.Base.{
  ℕ, String, Option, none, some, Bool, true, false, str_eq, ◌==◌, ==_refl, if◌then◌else◌, ◌≡◌, ◌≢◌,
  refl, sym, ap, ◌∙◌, arith, Bool-cases, inl, inr, ok, Error, subst,
}
use sftp_relay.Base.Int.{ℤ}
use sftp_relay.Db.Rows.{
  Server, Job, Message, message_of, lftp_exited, interrupted_by_restart, blank,
}
use sftp_relay.Db.Queue.{get_job, with_status, with_progress, status_allowed}
use sftp_relay.Db.Queue.Lookup.{set_job_status-Updates, set_job_progress-Updates}
use sftp_relay.Jobs.State.{
  status_running, status_done, status_failed, status_cancelled, status_interrupted, transition,
}
use sftp_relay.Jobs.State.Machine.{terminal_refuses, terminal_iff}
use sftp_relay.Jobs.Tracker.{Tracker, complete, note_complete, maybe_flush}
use sftp_relay.Jobs.Manager.{Manager, Worker, seconds, publish_job, cleanup, finish}
use sftp_relay.Jobs.Manager.Run.{Outcome, broke, exited, is_zero, conclude, flush}

-- A finish whose move is legal for the goroutine's copy of the row writes the row of the job, and no
-- other row.
pub finish-get_job :
    (now : ℕ) (job : Job) (status : String) (msg : Message) (code : Option ℤ) (m : Manager)
    (row : Job)
    → transition job.status status ≡ none
    → status_allowed status ≡ true
    → get_job job.id m.db ≡ ok row
    → (i : ℕ)
    → get_job i (finish now job status msg code m).db
      ≡ (if i == job.id then ok (with_status (seconds now) status msg code row) else get_job i m.db)
unfolding finish
finish-get_job now job status msg code m row legal allowed found i =
    let u = set_job_status-Updates (seconds now) job.id status msg code m.db row allowed found in
    rw (legal, u.1) (u.2 i)

-- A finish whose move is not legal for the copy changes nothing.
pub finish_illegal :
    (now : ℕ) (job : Job) (status : String) (msg : Message) (code : Option ℤ) (m : Manager)
    (e : Error)
    → transition job.status status ≡ some e
    → finish now job status msg code m ≡ m
unfolding finish
finish_illegal now job status msg code m e h = rw h

-- The row that the end of a run leaves: the documented outcome of each case.
abbrev pub completed : Tracker → Job → Job
completed t row = let t' = note_complete t in with_progress t'.bytes t'.speed t'.eta row

abbrev pub concluded : ℕ → Bool → Tracker → Outcome → Job → Job
concluded now cancelled t (broke e) row =
    if str_eq row.status status_cancelled
    then row
    else if cancelled
    then with_status (seconds now) status_interrupted interrupted_by_restart none row
    else with_status (seconds now) status_failed (message_of e) none row
concluded now cancelled t (exited code) row =
    if is_zero code
    then with_status (seconds now) status_done blank (some code) (completed t row)
    else with_status (seconds now) status_failed (lftp_exited code) (some code) row

module _ (now : ℕ) (w : Worker) (server : Server) (t : Tracker) (m : Manager) (row : Job)
    (copy : w.job.status ≡ status_running) (found : get_job w.job.id m.db ≡ ok row) where
  finish_from_running :
      (status : String) (msg : Message) (code : Option ℤ)
      → transition status_running status ≡ none
      → status_allowed status ≡ true
      → get_job w.job.id (finish now w.job status msg code m).db
        ≡ ok (with_status (seconds now) status msg code row)
  finish_from_running status msg code legal allowed =
      finish-get_job now w.job status msg code m row
        (subst (λ s. transition s status ≡ none) (sym copy) legal) allowed found w.job.id
      ∙ ap
          (λ b.
            if b then ok (with_status (seconds now) status msg code row) else get_job w.job.id m.db)
          (==_refl w.job.id)

  conclude_broke :
      (e : Error)
      → get_job w.job.id (conclude now w server t (broke e) m).db
        ≡ ok (concluded now w.cancelled t (broke e) row)
  unfolding conclude cleanup
  conclude_broke e = elim (Bool-cases (str_eq row.status status_cancelled)) [
    | inl gone ↦ rw (found, gone) found
    | inr there ↦ elim (Bool-cases w.cancelled) [
      | inl c ↦
          rw (found, there, c)
            (finish_from_running status_interrupted interrupted_by_restart none
              (unfold transition in refl) refl)
      | inr c ↦
          rw (found, there, c)
            (finish_from_running status_failed (message_of e) none (unfold transition in refl) refl)
    ]
  ]

  conclude_failed :
      (code : ℤ)
      → is_zero code ≡ false
      → get_job w.job.id (conclude now w server t (exited code) m).db
        ≡ ok (concluded now w.cancelled t (exited code) row)
  unfolding conclude
  conclude_failed code nonzero = rw nonzero (
      finish_from_running status_failed (lftp_exited code) (some code) (unfold transition in refl)
        refl)

flushed-get_job :
    (now id : ℕ) (t : Tracker) (m : Manager) (row : Job)
    → get_job id m.db ≡ ok row
    → get_job id (flush now id (complete now t).1 m).db ≡ ok (completed t row)
unfolding complete maybe_flush note_complete publish_job
flushed-get_job now id t m row found =
    let t' = note_complete t in
    let u = set_job_progress-Updates id t'.bytes t'.speed t'.eta m.db row found in
    rw (u.1) (
      u.2 id
      ∙ ap (λ b. if b then ok (with_progress t'.bytes t'.speed t'.eta row) else get_job id m.db)
          (==_refl id))

conclude_done :
    (now : ℕ) (w : Worker) (server : Server) (t : Tracker) (m : Manager) (row : Job) (code : ℤ)
    → w.job.status ≡ status_running
    → get_job w.job.id m.db ≡ ok row
    → is_zero code ≡ true
    → get_job w.job.id (conclude now w server t (exited code) m).db
      ≡ ok (concluded now w.cancelled t (exited code) row)
unfolding conclude
conclude_done now w server t m row code copy found zero_code = rw zero_code (
    finish_from_running now w server t (flush now w.job.id (complete now t).1 m) (completed t row)
      copy (flushed-get_job now w.job.id t m row found) status_done blank (some code)
      (unfold transition in refl) refl)

-- The end of a run, whatever the transfer returned, leaves in the row exactly the outcome that
-- `concluded` states, if the row is there and the goroutine's copy is running.
pub conclude-concluded :
    (now : ℕ) (w : Worker) (server : Server) (t : Tracker) (m : Manager) (row : Job) (o : Outcome)
    → w.job.status ≡ status_running
    → get_job w.job.id m.db ≡ ok row
    → get_job w.job.id (conclude now w server t o m).db ≡ ok (concluded now w.cancelled t o row)
conclude-concluded now w server t m row (broke e) copy found =
    conclude_broke now w server t m row copy found e
conclude-concluded now w server t m row (exited code) copy found =
    elim (Bool-cases (is_zero code)) [
      | inl z ↦ conclude_done now w server t m row code copy found z
      | inr n ↦ conclude_failed now w server t m row copy found code n
    ]

-- A transfer that breaks with an error never touches a row that was cancelled meanwhile.
pub broke_keeps_cancelled :
    (now : ℕ) (w : Worker) (server : Server) (t : Tracker) (m : Manager) (row : Job) (e : Error)
    → get_job w.job.id m.db ≡ ok row
    → row.status ≡ status_cancelled
    → (conclude now w server t (broke e) m).db ≡ m.db
unfolding conclude cleanup
broke_keeps_cancelled now w server t m row e found gone = rw (found, gone)

-- A transfer that ends with an exit code overwrites a row that was cancelled meanwhile: the row becomes
-- done or failed, a move that the state machine refuses.
pub exited_overwrites_cancelled :
    (now : ℕ) (w : Worker) (server : Server) (t : Tracker) (m : Manager) (row : Job) (code : ℤ)
    → w.job.status ≡ status_running
    → get_job w.job.id m.db ≡ ok row
    → row.status ≡ status_cancelled
    → (after : Job) × (get_job w.job.id (conclude now w server t (exited code) m).db ≡ ok after)
      × (after.status ≡ (if is_zero code then status_done else status_failed))
      × (transition row.status after.status ≢ none)
exited_overwrites_cancelled now w server t m row code copy found gone = (
  concluded now w.cancelled t (exited code) row,
  conclude-concluded now w server t m row (exited code) copy found,
  ground arith,
  terminal_refuses row.status (concluded now w.cancelled t (exited code) row).status
      ((terminal_iff row.status).1 (inr (inr gone))),
)
