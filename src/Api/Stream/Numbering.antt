-- ===== src/Api/Stream/Numbering.antt =====
-- What a client of the event stream reads (internal/api/jobs.go).
use sftp_relay.Base.{
  ℕ, suc, List, [], ◌∷◌, ◌++◌, keep, length, Bool, true, ◌≡◌, refl, ap, ◌∙◌, Bool-cases, inl, inr,
}
use sftp_relay.Db.Rows.{Database}
use sftp_relay.Events.{Event}
use sftp_relay.Api.Stream.{
  Data, Wake, heard, dropped, ticked, left, Frame, event_frame, ping_frame, sent, snapshot_event,
  put, write_event, carry_on, serve, stream,
}

-- The events that come before the end of the channel or of the request.
abbrev pub heard_before : List Wake → List (Event Data)
heard_before [] = []
heard_before (heard e ∷ ws) = sent e ∷ heard_before ws
heard_before (dropped ∷ ws) = []
heard_before (ticked ∷ ws) = heard_before ws
heard_before (left ∷ ws) = []

-- The events among frames, with their numbers.
abbrev pub events_in : List Frame → List (ℕ × Event Data)
events_in [] = []
events_in (event_frame n e ∷ fs) = (n, e) ∷ events_in fs
events_in (ping_frame ∷ fs) = events_in fs

-- Events, newest first, each with its place from the oldest, which is 1.
abbrev pub numbered : List (Event Data) → List (ℕ × Event Data)
numbered [] = []
numbered (e ∷ es) = (suc (length es), e) ∷ numbered es

-- Events come on top of those that are there.
abbrev pub onto : List (Event Data) → List (Event Data) → List (Event Data)
onto [] there = there
onto (e ∷ es) there = onto es (e ∷ there)

module _ (encodes : Event Data → Bool) (takes : List Frame → Frame → Bool) where
  -- The client takes every frame.
  abbrev pub TakesAll : Type 0
  TakesAll = (fs : List Frame) (f : Frame) → takes fs f ≡ true

  -- Of the events that have an encoding, some first ones were read, in order and numbered, after those
  -- that had been read; and all were, by a client that takes every frame.
  abbrev pub Delivered : List (Event Data) → List (Event Data) → List Frame → Type 0
  Delivered es there fs =
      (more : List (Event Data)) × (later : List (Event Data)) × (events_in fs
        ≡ numbered (onto more there))
      × (keep encodes es ≡ more ++ later)
      × (TakesAll → later ≡ [])

  -- What the rest of the handler has to keep.
  abbrev Continues : List (Event Data) → (ℕ → List Frame → List Frame) → Type 0
  Continues es next =
      (seq : ℕ) (fs : List Frame) (there : List (Event Data))
      → events_in fs ≡ numbered there
      → seq ≡ length there
      → Delivered es there (next seq fs)

  write_event-Continues :
      (e : Event Data) (es : List (Event Data)) (next : ℕ → List Frame → List Frame)
      → Continues es next
      → Continues
          (e ∷ es)
          (λ seq fs. carry_on encodes takes (write_event encodes takes e seq fs) next)
  unfolding write_event
  write_event-Continues e es next k seq fs there h n = elim (Bool-cases (encodes e)) [
    | inr x ↦ rw x (k seq fs there h n)
    | inl x ↦ elim (Bool-cases (takes fs (event_frame (suc seq) e))) [
      | inr t ↦
          rw (x, t)
            ([], e ∷ keep encodes es, h, refl, λ all. cc (all fs (event_frame (suc seq) e), t))
      | inl t ↦
          let f = event_frame (suc seq) e in
          let (more, later, read, split, all) =
            k (suc seq) (f ∷ fs) (e ∷ there)
              (ap (λ m. (suc m, e) ∷ events_in fs) n ∙ ap (λ l. (suc (length there), e) ∷ l) h)
              (ap suc n) in
          rw (x, t) (e ∷ more, later, read, ap (λ l. e ∷ l) split, all)
    ]
  ]

  ping-Continues :
      (es : List (Event Data)) (next : ℕ → List Frame → List Frame)
      → Continues es next
      → Continues es (λ seq fs. carry_on encodes takes (put encodes takes ping_frame seq fs) next)
  ping-Continues es next k seq fs there h n = elim (Bool-cases (takes fs ping_frame)) [
    | inl t ↦ rw t (k seq (ping_frame ∷ fs) there h n)
    | inr t ↦ rw t ([], keep encodes es, h, refl, λ all. cc (all fs ping_frame, t))
  ]

  ended :
      (there : List (Event Data)) (fs : List Frame)
      → events_in fs ≡ numbered there
      → Delivered [] there fs
  ended there fs h = ([], [], h, refl, λ all. refl)

  serve-Continues : (ws : List Wake) → Continues (heard_before ws) (serve encodes takes ws)
  unfolding serve
  serve-Continues [] seq fs there h n = ended there fs h
  serve-Continues (heard e ∷ ws) seq fs there h n =
      write_event-Continues (sent e) (heard_before ws) (serve encodes takes ws) (serve-Continues ws)
        seq fs there h n
  serve-Continues (dropped ∷ ws) seq fs there h n = ended there fs h
  serve-Continues (ticked ∷ ws) seq fs there h n =
      ping-Continues (heard_before ws) (serve encodes takes ws) (serve-Continues ws) seq fs there h
        n
  serve-Continues (left ∷ ws) seq fs there h n = ended there fs h

  -- The events that a client reads are numbered 1, 2, 3 and so on, and are the snapshot and then what
  -- its channel gave before it ended, in that order, as far as the client takes frames; of these, only
  -- an event without an encoding is passed over. A client that takes every frame misses no other.
  pub stream-Delivered :
      (db : Database) (ws : List Wake)
      → Delivered (snapshot_event db ∷ heard_before ws) [] (stream encodes takes db ws)
  unfolding stream
  stream-Delivered db ws =
      write_event-Continues (snapshot_event db) (heard_before ws) (serve encodes takes ws)
        (serve-Continues ws) 0 [] [] refl refl
