-- ===== src/Api/Jobs/Deleting.antt =====
-- What the delete of a job does (internal/api/jobs.go).
use sftp_relay.Base.{
  ℕ, true, false, not, Option, none, some, List, [], ◌∷◌, keep, first, ◌==◌, if◌then◌else◌, ◌≡◌,
  refl, sym, ap, ◌∙◌, Bool-cases, inl, inr, arith, not_found, ok, err,
}
use sftp_relay.Db.Rows.{Server, Job, has_server, has_job}
use sftp_relay.Db.Servers.{or_not_found}
use sftp_relay.Db.Queue.{join_row, joined, get_job, delete_job}
use sftp_relay.Db.Queue.Lookup.{found_of_get_job, or_not_found_if, present_of_joined, if_same}
use sftp_relay.Jobs.State.{terminal}
use sftp_relay.Jobs.Manager.{Manager}
use sftp_relay.Api.Jobs.{delete_job_handler}

kept_row :
    (id i : ℕ) (o : Option Server) (j : Job) (before after : List Job)
    → (j.id == id) ≡ false
    → first (has_job i) after ≡ (if i == id then none else first (has_job i) before)
    → first (has_job i) (join_row o j after)
      ≡ (if i == id then none else first (has_job i) (join_row o j before))
kept_row id i none j before after other h = h
kept_row id i (some s) j before after other h = ground (arith, other, h)

dropped_row :
    (id i : ℕ) (o : Option Server) (j : Job) (before after : List Job)
    → (j.id == id) ≡ true
    → first (has_job i) after ≡ (if i == id then none else first (has_job i) before)
    → first (has_job i) after ≡ (if i == id then none else first (has_job i) (join_row o j before))
dropped_row id i none j before after same h = h
dropped_row id i (some s) j before after same h = ground (arith, same, h)

first-delete :
    (id i : ℕ) (ss : List Server) (js : List Job)
    → first (has_job i) (joined ss (keep (λ j. not (has_job id j)) js))
      ≡ (if i == id then none else first (has_job i) (joined ss js))
unfolding joined
first-delete id i ss [] = ground arith
first-delete id i ss (j ∷ js) =
    let rest = first-delete id i ss js in
    let o = first (has_server j.server_id) ss in
    let after = joined ss (keep (λ k. not (has_job id k)) js) in
    elim (Bool-cases (j.id == id)) [
      | inl same ↦ rw same (dropped_row id i o j (joined ss js) after same rest)
      | inr other ↦ rw other (kept_row id i o j (joined ss js) after other rest)
    ]

-- The delete of a finished job answers 204 and leaves every other job as it was, and no job under the
-- id; the delete of a job that is not finished answers 409 and changes nothing.
pub delete_job_handler-get_job :
    (id : ℕ) (m : Manager) (row : Job)
    → get_job id m.db ≡ ok row
    → let (m', reply) = delete_job_handler (some id) m in
      (reply.code ≡ (if terminal row.status then 204 else 409))
      × ((i : ℕ)
          → get_job i m'.db ≡ (
              if i == id
              then (if terminal row.status then err (not_found i) else get_job i m.db)
              else get_job i m.db))
unfolding delete_job_handler delete_job get_job
delete_job_handler-get_job id m row found = elim (Bool-cases (terminal row.status)) [
  | inl over ↦
      rw
        (
          found,
          over,
          present_of_joined id m.db.servers m.db.jobs row (found_of_get_job id m.db row found),
        )
        (
          refl,
          λ i.
              ap (or_not_found i) (first-delete id i m.db.servers m.db.jobs)
              ∙ or_not_found_if i (i == id) none
                  (first (has_job i) (joined m.db.servers m.db.jobs)),
        )
  | inr live ↦ rw (found, live) (refl, λ i. sym (if_same (i == id) (get_job i m.db)))
]
