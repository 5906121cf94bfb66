-- ===== src/Sftp/Listing/Totals.antt =====
-- What `Size` adds up (internal/sftpclient/sftpclient.go).
use sftp_relay.Base.{
  ℕ, Text, List, [], ◌∷◌, true, false, first, some, if◌then◌else◌, ◌≡◌, refl, ap, ◌∙◌, Error,
  Result, ok, err, Bool-cases, inl, inr,
}
use sftp_relay.Base.Int.{ℤ, pos, add64}
use sftp_relay.Db.Rows.{Server, Database}
use sftp_relay.Sftp.{Conn, clean_path, dial}
use sftp_relay.Sftp.Pool.{Pool, World, has_key, redial, do_on}
use sftp_relay.Base.Files.{Info, Visit, visited, unreadable, cancelled, added_size}
use sftp_relay.Sftp.Listing.{Remote, Sized, as_dir, nothing, walked, size_on, size}

-- The sum of the files that a walk meets before it ends.
abbrev pub sum_of : List Visit → ℤ → ℤ
sum_of [] total = total
sum_of (visited fi ∷ vs) total = sum_of vs (if fi.is_dir then total else add64 total fi.size)
sum_of (unreadable e ∷ vs) total = total
sum_of (cancelled e ∷ vs) total = total

-- How a walk ends.
abbrev pub end_of : List Visit → Result (Unit {0})
end_of [] = ok tt
end_of (visited fi ∷ vs) = end_of vs
end_of (unreadable e ∷ vs) = err e
end_of (cancelled e ∷ vs) = err e

added_once : (fi : Info) (t : ℤ) → added_size fi t ≡ (if fi.is_dir then t else add64 t fi.size)
added_once fi t = elim (Bool-cases fi.is_dir) [ inl e ↦ rw e refl | inr e ↦ rw e refl ]

walked_lem : (vs : List Visit) (total : ℤ) → walked vs total ≡ (end_of vs, sum_of vs total)
unfolding walked
walked_lem [] total = refl
walked_lem (visited fi ∷ vs) total =
    walked_lem vs (added_size fi total) ∙ ap (λ t. (end_of vs, sum_of vs t)) (added_once fi total)
walked_lem (unreadable e ∷ vs) total = refl
walked_lem (cancelled e ∷ vs) total = refl

module _ (lower : Text → Text) (remote : Conn → Remote) where
  -- The walk of a path on a connection.
  abbrev pub walk_on : Text → Conn → List Visit
  walk_on path c = (remote c).walk (clean_path path)

  -- The path is a directory there.
  abbrev pub IsDir : Text → Conn → Type 0
  IsDir path c = (fi : Info) × ((remote c).stat (clean_path path) ≡ ok fi) × (fi.is_dir ≡ true)

  size_on_dir :
      (path : Text) (c : Conn) (r : Sized)
      → IsDir path c
      → size_on lower remote (clean_path path) c r ≡ (
        end_of (walk_on path c),
        record { total = sum_of (walk_on path c) r.total; is_dir = true },
      )
  size_on_dir path c r (fi, there, dir) =
      rw (there, dir) (ap as_dir (walked_lem (walk_on path c) r.total))

  -- What the sizes of a directory are, where the pooled connection breaks during the walk and the
  -- server is dialled again: the files that both walks met, the broken one first.
  pub size_sums_both_attempts :
      (w : World) (s : Server) (path : Text) (p : Pool) (db db' : Database) (k : ℕ) (c c' : Conn)
      (e : Error)
      → p.closed ≡ false
      → first (has_key s.id) p.conns ≡ some (k, c)
      → IsDir path c
      → end_of (walk_on path c) ≡ err e
      → w.is_broken e ≡ true
      → dial w.keys s w.wire w.now db ≡ ok (c', db')
      → IsDir path c'
      → end_of (walk_on path c') ≡ ok tt
      → (size lower remote w s path p db).0
        ≡ ok (record {
          total = sum_of (walk_on path c') (sum_of (walk_on path c) (pos 0));
          is_dir = true;
        })
  unfolding size do_on redial
  size_sums_both_attempts w s path p db db' k c c' e open_ found dir breaks broken dials dir' ends =
      let first_try = size_on_dir path c nothing dir in
      let half : Sized = record { total = sum_of (walk_on path c) (pos 0); is_dir = true } in
      let second = size_on_dir path c' half dir' in
      rw (open_, found, first_try, breaks, broken, dials, second, ends) refl
