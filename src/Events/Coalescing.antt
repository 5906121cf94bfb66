-- ===== src/Events/Coalescing.antt =====
-- At most one progress event per job and second (internal/events/events.go).
use sftp_relay.Base.{
  ℕ, ◌+◌, ◌≤◌, Bool, true, false, ◌&&◌, Option, none, some, List, [], ◌∷◌, ◌≡◌, refl, arith, str_eq,
  ◌==◌, if◌then◌else◌, ◌||◌, ==_iff, subst, ap, ◌⊎◌, inl, inr,
}
use sftp_relay.Events.{
  Event, Hub, type_progress, type_done, type_failed, progress_interval, last_of, forget, remember,
  too_soon, coalesced, next_last_sent, publish,
}

last_of-forget :
    (j k : ℕ) (m : List (ℕ × ℕ)) → last_of k (forget j m) ≡ (if j == k then none else last_of k m)
unfolding forget
last_of-forget j k [] = ground arith
last_of-forget j k ((i, t) ∷ m) = ground (arith, last_of-forget j k m)

-- A progress event of the job comes a whole interval after the last one, if there was one since
-- the job last ended.
abbrev pub Apart : Option ℕ → Bool → ℕ → Type 0
Apart none is_progress now = Unit
Apart (some last) is_progress now = (is_progress ≡ false) ⊎ (last + progress_interval ≤ now)

Apart-coalesced :
    (last own : Option ℕ) (is_job is_progress : Bool) (now : ℕ)
    → (is_job ≡ true → own ≡ last)
    → (is_progress && too_soon own now) ≡ false
    → Apart last (is_job && is_progress) now
Apart-coalesced none own is_job is_progress now same h = tt
Apart-coalesced (some last) own true true now same h = inr (ground (arith, same refl))
Apart-coalesced (some last) own true false now same h = inl refl
Apart-coalesced (some last) own false is_progress now same h = inl refl

module _ {ℓ} {D : Type ℓ} where
  -- The hub after a sequence of publishes, each at its time, and the events that got through.
  unfoldable pub publish_all : List (Event D × ℕ) → Hub D → Hub D × List (Event D × ℕ)
  publish_all [] h = (h, [])
  publish_all ((e, now) ∷ es) h =
      let (h', sent) = publish_all es (publish e now h) in
      (h', if coalesced e now h then sent else (e, now) ∷ sent)

  -- When the job's window last opened, after an event that got through.
  abbrev pub window : ℕ → Option ℕ → Event D → ℕ → Option ℕ
  window j last e now =
      if e.job_id == j
      then (if str_eq e.type type_progress
          then some now
          else if str_eq e.type type_done || str_eq e.type type_failed
          then none
          else last)
      else last

  abbrev pub Spaced : ℕ → Option ℕ → List (Event D × ℕ) → Type 0
  Spaced j last [] = Unit
  Spaced j last ((e, now) ∷ es) =
      Apart last (e.job_id == j && str_eq e.type type_progress) now
      × Spaced j (window j last e now) es

  last_sent-publish :
      (j : ℕ) (e : Event D) (now : ℕ) (h : Hub D)
      → coalesced e now h ≡ false
      → last_of j (publish e now h).last_sent ≡ window j (last_of j h.last_sent) e now
  unfolding publish next_last_sent remember
  last_sent-publish j e now h open_window =
      rw open_window (ground (arith, last_of-forget e.job_id j h.last_sent))

  publish-coalesced :
      (e : Event D) (now : ℕ) (h : Hub D) → coalesced e now h ≡ true → publish e now h ≡ h
  unfolding publish
  publish-coalesced e now h c = rw c

  Spaced-if :
      (j : ℕ) (last : Option ℕ) (e : Event D) (now : ℕ) (sent : List (Event D × ℕ)) (b : Bool)
      → (b ≡ true → Spaced j last sent)
      → (b ≡ false → Spaced j last ((e, now) ∷ sent))
      → Spaced j last (if b then sent else (e, now) ∷ sent)
  Spaced-if j last e now sent true held through = held refl
  Spaced-if j last e now sent false held through = through refl

  -- Whatever is published, the progress events that get through for one job are a second apart,
  -- unless the job was reported done or failed between them.
  pub publish_all-Spaced :
      (j : ℕ) (es : List (Event D × ℕ)) (h : Hub D)
      → Spaced j (last_of j h.last_sent) (publish_all es h).1
  unfolding publish_all
  publish_all-Spaced j [] h = tt
  publish_all-Spaced j ((e, now) ∷ es) h =
      let rest = publish_all-Spaced j es (publish e now h) in
      let sent = (publish_all es (publish e now h)).1 in
      let last = last_of j h.last_sent in
      Spaced-if j last e now sent (coalesced e now h)
        (λ c.
          subst (λ h'. Spaced j (last_of j h'.last_sent) sent) (publish-coalesced e now h c) rest)
        (λ c. (
          Apart-coalesced last (last_of e.job_id h.last_sent) (e.job_id == j)
              (str_eq e.type type_progress) now
              (λ s. ap (λ i. last_of i h.last_sent) ((==_iff e.job_id j).0 s)) c,
          subst (λ o. Spaced j o sent) (last_sent-publish j e now h c) rest,
        ))
