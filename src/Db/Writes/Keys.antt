-- ===== src/Db/Writes/Keys.antt =====
-- Which rows can still be found after a write (internal/db/repo.go).
use sftp_relay.Base.{
  ℕ, Bool, true, false, not, List, [], ◌∷◌, keep, map, first, ◌==◌, ==_iff, ◌≡◌, refl, sym,
  Bool-cases, inl, inr, arith, Text,
}
use sftp_relay.Db.Rows.{Server, Job, has_server, has_job}
use sftp_relay.Db.Servers.{is_present, replace_server, with_host_key}

abbrev pub has_owner : List Server → ℕ → Bool
has_owner ss i = is_present (first (has_server i) ss)

pub has_owner-cons :
    (s : Server) (ss : List Server) (i : ℕ) → has_owner ss i ≡ true → has_owner (s ∷ ss) i ≡ true
has_owner-cons s ss i h = elim (Bool-cases (s.id == i)) [ inl e ↦ rw e refl | inr e ↦ rw e h ]

pub has_owner-map :
    (f : Server → Server)
    → ((s : Server) → (f s).id ≡ s.id)
    → (ss : List Server) (i : ℕ) → has_owner (map f ss) i ≡ has_owner ss i
has_owner-map f same [] i = refl
has_owner-map f same (s ∷ ss) i =
    let rest = has_owner-map f same ss i in
    rw (same s) (elim (Bool-cases (s.id == i)) [ inl e ↦ rw e refl | inr e ↦ rw e rest ])

pub id-replace_server : (s old : Server) → (replace_server s old).id ≡ old.id
id-replace_server s old = elim (Bool-cases (old.id == s.id)) [
  | inl e ↦ rw e (sym ((==_iff old.id s.id).0 e))
  | inr e ↦ rw e refl
]

pub id-with_host_key : (id : ℕ) (key : Text) (s : Server) → (with_host_key id key s).id ≡ s.id
id-with_host_key id key s = ground arith

other_id : (s : Server) (id i : ℕ) → (s.id == id) ≡ true → (i == id) ≡ false → (s.id == i) ≡ false
other_id s id i e n = ground (arith, e, n)

pub has_owner-keep :
    (id : ℕ) (ss : List Server) (i : ℕ)
    → (i == id) ≡ false
    → has_owner ss i ≡ true
    → has_owner (keep (λ s. not (s.id == id)) ss) i ≡ true
has_owner-keep id [] i n h = h
has_owner-keep id (s ∷ ss) i n h = elim (Bool-cases (s.id == id)) [
  | inl e ↦ rw e (has_owner-keep id ss i n (rw (other_id s id i e n) at h))
  | inr e ↦ rw e (elim (Bool-cases (s.id == i)) [
    | inl f ↦ rw f refl
    | inr f ↦ rw f (has_owner-keep id ss i n (rw f at h))
  ])
]

abbrev pub has_row : List Job → ℕ → Bool
has_row js i = is_present (first (has_job i) js)

pub has_row-map :
    (f : Job → Job)
    → ((j : Job) → (f j).id ≡ j.id)
    → (js : List Job) (i : ℕ) → has_row (map f js) i ≡ has_row js i
has_row-map f same [] i = refl
has_row-map f same (j ∷ js) i =
    let rest = has_row-map f same js i in
    rw (same j) (elim (Bool-cases (j.id == i)) [ inl e ↦ rw e refl | inr e ↦ rw e rest ])

pub has_row-cons :
    (j : Job) (js : List Job) (i : ℕ) → has_row js i ≡ true → has_row (j ∷ js) i ≡ true
has_row-cons j js i h = elim (Bool-cases (j.id == i)) [ inl e ↦ rw e refl | inr e ↦ rw e h ]
