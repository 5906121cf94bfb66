-- ===== src/Db/Migrations/Once.antt =====
-- Every migration is applied once (internal/db/db.go).
use sftp_relay.Base.{
  ℕ, ◌+◌, ◌≤◌, Text, List, [], ◌∷◌, true, false, none, some, text_eq, text_eq_iff, if◌then◌else◌,
  ◌≡◌, refl, sym, ap, ◌∙◌, inl, inr, Bool-cases, All, Error, Result, ok, err, result_cases, arith,
  subst,
}
use sftp_relay.Base.Sorting.{sort_by}
use sftp_relay.Db.Migrations.{SqlFile, Schema, is_seen, migrate_file, migrate_all, by_name, migrate}

-- How often a migration was recorded.
abbrev pub times : Text → List Text → ℕ
times name [] = 0
times name (n ∷ ns) = (if text_eq n name then 1 else 0) + times name ns

-- No migration was recorded twice.
abbrev pub IsOnce : List Text → Type 0
IsOnce ns = (name : Text) → times name ns ≤ 1

times_unseen : (name : Text) (ns : List Text) → is_seen name ns ≡ false → times name ns ≡ 0
unfolding is_seen
times_unseen name [] h = refl
times_unseen name (n ∷ ns) h = ground (arith, times_unseen name ns)

IsOnce-cons :
    (name : Text) (ns : List Text) → is_seen name ns ≡ false → IsOnce ns → IsOnce (name ∷ ns)
IsOnce-cons name ns h once other = elim (Bool-cases (text_eq name other)) [
  | inl e ↦
      let same = (text_eq_iff name other).0 e in
      let none_yet = ap (λ k. times k ns) (sym same) ∙ times_unseen name ns h in
      rw e (omega (arith, none_yet))
  | inr e ↦ rw e (omega (arith, once other))
]

module _ {D : Type 0} (apply : Text → D → Result D) where
  abbrev Seen : List SqlFile → Schema D → Type 0
  Seen fs s = All (λ f. is_seen f.name s.migrations ≡ true) fs

  -- What is recorded stays recorded.
  Grows : Schema D → Schema D → Type 0
  Grows s s' = (name : Text) → is_seen name s.migrations ≡ true → is_seen name s'.migrations ≡ true

  is_seen_new : (name : Text) (ns : List Text) → is_seen name (name ∷ ns) ≡ true
  unfolding is_seen
  is_seen_new name ns = rw ((text_eq_iff name name).1 refl) refl

  is_seen_more :
      (name n : Text) (ns : List Text) → is_seen name ns ≡ true → is_seen name (n ∷ ns) ≡ true
  unfolding is_seen
  is_seen_more name n ns h = ground arith

  migrate_all-IsOnce :
      (fs : List SqlFile) (s : Schema D)
      → IsOnce s.migrations
      → IsOnce (migrate_all apply fs s).1.migrations
  unfolding migrate_all migrate_file
  migrate_all-IsOnce [] s h = h
  migrate_all-IsOnce (f ∷ fs) s h = elim (Bool-cases (is_seen f.name s.migrations)) [
    | inl e ↦ rw e (migrate_all-IsOnce fs s h)
    | inr e ↦ elim (result_cases (apply f.body s.rest)) [
      | inr (x, bad) ↦ rw (e, bad) h
      | inl (d, good) ↦
          rw (e, good)
            (migrate_all-IsOnce fs (record { migrations = f.name ∷ s.migrations; rest = d })
              (IsOnce-cons f.name s.migrations e h))
    ]
  ]

  migrate_all-Grows : (fs : List SqlFile) (s : Schema D) → Grows s (migrate_all apply fs s).1
  unfolding migrate_all migrate_file Grows
  migrate_all-Grows [] s name h = h
  migrate_all-Grows (f ∷ fs) s name h = elim (Bool-cases (is_seen f.name s.migrations)) [
    | inl e ↦ rw e (migrate_all-Grows fs s name h)
    | inr e ↦ elim (result_cases (apply f.body s.rest)) [
      | inr (x, bad) ↦ rw (e, bad) h
      | inl (d, good) ↦
          rw (e, good)
            (migrate_all-Grows fs (record { migrations = f.name ∷ s.migrations; rest = d }) name
              (is_seen_more name f.name s.migrations h))
    ]
  ]

  migrate_all_seen :
      (f : SqlFile) (fs : List SqlFile) (s : Schema D)
      → is_seen f.name s.migrations ≡ true
      → migrate_all apply (f ∷ fs) s ≡ migrate_all apply fs s
  unfolding migrate_all migrate_file
  migrate_all_seen f fs s e = rw e refl

  migrate_all_recorded :
      (f : SqlFile) (fs : List SqlFile) (s : Schema D) (d : D)
      → is_seen f.name s.migrations ≡ false
      → apply f.body s.rest ≡ ok d
      → migrate_all apply (f ∷ fs) s
        ≡ migrate_all apply fs (record { migrations = f.name ∷ s.migrations; rest = d })
  unfolding migrate_all migrate_file
  migrate_all_recorded f fs s d e good = rw (e, good) refl

  migrate_all_failed :
      (f : SqlFile) (fs : List SqlFile) (s : Schema D) (x : Error)
      → is_seen f.name s.migrations ≡ false
      → apply f.body s.rest ≡ err x
      → migrate_all apply (f ∷ fs) s ≡ (some x, s)
  unfolding migrate_all migrate_file
  migrate_all_failed f fs s x e bad = rw (e, bad) refl

  migrate_all-Seen :
      (fs : List SqlFile) (s : Schema D)
      → (migrate_all apply fs s).0 ≡ none
      → Seen fs (migrate_all apply fs s).1
  unfolding Grows
  migrate_all-Seen [] s h = tt
  migrate_all-Seen (f ∷ fs) s h = elim (Bool-cases (is_seen f.name s.migrations)) [
    | inl e ↦
        let same = migrate_all_seen f fs s e in
        subst (λ x. Seen (f ∷ fs) x.1) (sym same)
          (migrate_all-Grows fs s f.name e, migrate_all-Seen fs s (ap (λ x. x.0) (sym same) ∙ h))
    | inr e ↦ elim (result_cases (apply f.body s.rest)) [
      | inr (x, bad) ↦ cc (ap (λ x'. x'.0) (migrate_all_failed f fs s x e bad))
      | inl (d, good) ↦
          let same = migrate_all_recorded f fs s d e good in
          let s' : Schema D = record { migrations = f.name ∷ s.migrations; rest = d } in
          subst (λ x. Seen (f ∷ fs) x.1) (sym same)
            (
              migrate_all-Grows fs s' f.name (is_seen_new f.name s.migrations),
              migrate_all-Seen fs s' (ap (λ x. x.0) (sym same) ∙ h),
            )
    ]
  ]

  migrate_all_again :
      (fs : List SqlFile) (s : Schema D) → Seen fs s → migrate_all apply fs s ≡ (none, s)
  unfolding migrate_all migrate_file
  migrate_all_again [] s h = refl
  migrate_all_again (f ∷ fs) s (h, hs) = rw h (migrate_all_again fs s hs)

  -- Whether it succeeds or fails, `migrate` never records a migration twice; and where it succeeds,
  -- running it again, as every start of the relay does, succeeds and changes nothing.
  pub migrate-IsOnce :
      (files : List SqlFile) (s : Schema D)
      → IsOnce s.migrations
      → let x = migrate apply files s in
        IsOnce x.1.migrations × (x.0 ≡ none → migrate apply files x.1 ≡ (none, x.1))
  unfolding migrate
  migrate-IsOnce files s h = (
    migrate_all-IsOnce (sort_by (by_name apply) files) s h,
    λ fine.
        migrate_all_again (sort_by (by_name apply) files) _
          (migrate_all-Seen (sort_by (by_name apply) files) s fine),
  )
