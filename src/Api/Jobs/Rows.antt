-- ===== src/Api/Jobs/Rows.antt =====
-- Lists of rows in descending order of ids, and what a cursor cuts off them (internal/api/jobs.go).
use sftp_relay.Base.{
  ℕ, zero, suc, ◌≤◌, ◌<◌, String, Bool, true, false, ◌||◌, ◌&&◌, List, [], ◌∷◌, ◌++◌, keep, take,
  length, ltb, ◌==◌, if◌then◌else◌, ◌≡◌, refl, ap, Bool-cases, inl, inr, arith, All, All-take,
}
use sftp_relay.Db.Rows.{Job}
use sftp_relay.Db.Order.{Newest}
use sftp_relay.Db.Queue.{on_page}
use sftp_relay.Api.Jobs.{last_id}

-- Newest first, no id twice.
abbrev pub Descending : List Job → Type 0
Descending js = Newest (λ j. j.id) js

abbrev pub drop : ℕ → List Job → List Job
drop zero js = js
drop (suc n) [] = []
drop (suc n) (j ∷ js) = drop n js

pub take-drop : (n : ℕ) (js : List Job) → take n js ++ drop n js ≡ js
take-drop zero js = refl
take-drop (suc n) [] = refl
take-drop (suc n) (j ∷ js) = ap (λ l. j ∷ l) (take-drop n js)

pub take_short : (n : ℕ) (js : List Job) → length (take n js) < n → take n js ≡ js
take_short zero js h = absurd (omega (arith, h))
take_short (suc n) [] h = refl
take_short (suc n) (j ∷ js) h = ap (λ l. j ∷ l) (take_short n js (omega (arith, h)))

pub length-drop-lt :
    (n : ℕ) (js : List Job) → 1 ≤ n → 1 ≤ length js → length (drop n js) < length js
length-drop-lt zero js h k = absurd (omega (arith, h))
length-drop-lt (suc n) [] h k = absurd (omega (arith, k))
length-drop-lt (suc zero) (j ∷ js) h k = omega arith
length-drop-lt (suc (suc n)) (j ∷ []) h k = omega arith
length-drop-lt (suc (suc n)) (j ∷ i ∷ js) h k =
    omega (arith, length-drop-lt (suc n) (i ∷ js) (omega arith) (omega arith))

-- What holds of each id of a page holds of the last.
pub last_id_of :
    (P : ℕ → Type 0) (j : Job) (js : List Job) → All (λ k. P k.id) (j ∷ js) → P (last_id (j ∷ js))
last_id_of P j [] (h, hs) = h
last_id_of P j (k ∷ js) (h, hs) = last_id_of P k js hs

pub keep-All : (b : ℕ) (js : List Job) → All (λ k. k.id < b) js → keep (λ k. ltb k.id b) js ≡ js
keep-All b [] h = refl
keep-All b (j ∷ js) (h, hs) = ground (arith, keep-All b js hs, h)

pub not_below : (a b : ℕ) → b ≤ a → ltb a b ≡ false
not_below a b h = ground arith

-- What is below the last row of a full page is what comes after the page.
pub keep_after :
    (n : ℕ) (js : List Job)
    → Descending js
    → suc n ≤ length js
    → keep (λ k. ltb k.id (last_id (take (suc n) js))) js ≡ drop (suc n) js
keep_after n [] d h = absurd (omega (arith, h))
keep_after zero (j ∷ js) (d, ds) h = rw (not_below j.id j.id (omega arith)) (keep-All j.id js d)
keep_after (suc n) (j ∷ []) d h = absurd (omega (arith, h))
keep_after (suc n) (j ∷ k ∷ js) (d, ds) h =
    let last = last_id (take (suc n) (k ∷ js)) in
    let below =
      last_id_of (λ i. i < j.id) k (take n js) (All-take (λ i. i.id < j.id) (suc n) (k ∷ js) d) in
    rw (not_below j.id last (omega (arith, below))) (keep_after n (k ∷ js) ds (omega (arith, h)))

-- The rows below a cursor, among those below an earlier cursor.
pub on_later_page :
    (status : String) (c last : ℕ) (j : Job)
    → (last == 0) ≡ false
    → (c == 0 || ltb last c) ≡ true
    → on_page status last j ≡ (on_page status c j && ltb j.id last)
on_later_page status c last j nonzero later = ground (arith, nonzero, later)

pub keep_both :
    (p q r : Job → Bool)
    → ((j : Job) → r j ≡ (p j && q j))
    → (js : List Job) → keep r js ≡ keep q (keep p js)
keep_both p q r same [] = refl
keep_both p q r same (j ∷ js) = elim (Bool-cases (p j)) [
  | inr e ↦ rw (same j, e) (keep_both p q r same js)
  | inl e ↦ elim (Bool-cases (q j)) [
    | inl b ↦ rw (same j, e, b) (ap (λ l. j ∷ l) (keep_both p q r same js))
    | inr b ↦ rw (same j, e, b) (keep_both p q r same js)
  ]
]

pub if_false : (b : Bool) (x y : List Job) → b ≡ false → (if b then x else y) ≡ y
if_false b x y h = rw h refl

pub length-take-long : (n : ℕ) (js : List Job) → n ≤ length (take n js) → n ≤ length js
length-take-long zero js h = omega arith
length-take-long (suc n) [] h = h
length-take-long (suc n) (j ∷ js) h = omega (arith, length-take-long n js (omega (arith, h)))

pub not_short : (a b : ℕ) → ltb a b ≡ false → b ≤ a
not_short a b h = ground arith
