-- ===== src/Sftp/Pool/Answers.antt =====
-- Where an answer of the pool comes from (internal/sftpclient/sftpclient.go).
use sftp_relay.Base.{
  ℕ, first, Option, none, some, Result, ok, err, ◌≡◌, ap, Bool-cases, inl, inr, external, codes,
  subst, if◌then◌else◌, refl, ◌∙◌,
}
use sftp_relay.Db.Rows.{Server, Database}
use sftp_relay.Sftp.{Conn, dial}
use sftp_relay.Sftp.Pool.{
  Pool, World, has_key, drop, fresh_answered, redialled, redial, pooled_answered, on_found, do_on,
}

module _ {A R : Type 0} (fn : Conn → R → Result A × R) where
  -- An answer that some run of `fn` gave.
  abbrev pub Answered : A → R → Type 0
  Answered a r' = (c : Conn) × (r : R) × (fn c r ≡ (ok a, r'))

  -- The part of a call that its answer is.
  abbrev Gives : Result A × R × Pool × Database → A → R → Type 0
  Gives x a r' = (x.0 ≡ ok a) × (x.1 ≡ r')

  fresh_ok :
      (id now : ℕ) (c : Conn) (p : Pool) (db : Database) (x : Result A × R) (a : A) (r' : R)
      → Gives (fresh_answered fn id now c p db x) a r'
      → x ≡ (ok a, r')
  fresh_ok id now c p db (ok b, r) a r' (h, k) = ap (λ o. (o, r)) h ∙ ap (λ q. (ok a, q)) k
  fresh_ok id now c p db (err e, r) a r' (h, k) = cc

  redialled_ok :
      (w : World) (s : Server) (p : Pool) (db : Database) (r : R) (d : Result (Conn × Database))
      (a : A) (r' : R)
      → Gives (redialled fn w s p db r d) a r'
      → Answered a r'
  redialled_ok w s p db r (err e) a r' (h, k) = cc
  redialled_ok w s p db r (ok (c, db')) a r' h = (c, r, fresh_ok s.id w.now c p db' (fn c r) a r' h)

  redial_ok :
      (w : World) (s : Server) (p : Pool) (db : Database) (r : R) (a : A) (r' : R)
      → Gives (redial fn w s p db r) a r'
      → Answered a r'
  unfolding redial
  redial_ok w s p db r a r' h = redialled_ok w s p db r (dial w.keys s w.wire w.now db) a r' h

  pooled_ok :
      (w : World) (s : Server) (p : Pool) (db : Database) (c : Conn) (r : R) (x : Result A × R)
      (a : A) (r' : R)
      → fn c r ≡ x
      → Gives (pooled_answered fn w s p db x) a r'
      → Answered a r'
  pooled_ok w s p db c r (ok b, q) a r' e (h, k) =
      (c, r, e ∙ ap (λ o. (o, q)) h ∙ ap (λ t. (ok a, t)) k)
  pooled_ok w s p db c r (err b, q) a r' e h = elim (Bool-cases (w.is_broken b)) [
    | inl i ↦ redial_ok w s (drop s.id p) db q a r' (rw i at h)
    | inr i ↦ cc ((rw i at h).0)
  ]

  found_ok :
      (w : World) (s : Server) (p : Pool) (db : Database) (r : R) (o : Option (ℕ × Conn)) (a : A)
      (r' : R)
      → Gives (on_found fn w s p db r o) a r'
      → Answered a r'
  found_ok w s p db r none a r' h = redial_ok w s p db r a r' h
  found_ok w s p db r (some (id, c)) a r' h = pooled_ok w s p db c r (fn c r) a r' refl h

  -- A call that succeeds ends with a run that gave its answer.
  pub do_on_ok :
      (w : World) (s : Server) (p : Pool) (db : Database) (r : R) (a : A) (r' : R)
      → (do_on fn w s p db r).0 ≡ ok a
      → (do_on fn w s p db r).1 ≡ r'
      → Answered a r'
  unfolding do_on
  do_on_ok w s p db r a r' h k =
      let answer : Result A × R × Pool × Database =
        on_found fn w s p db r (first (has_key s.id) p.conns) in
      let refused : Result A × R × Pool × Database =
        (err (external (codes "pool is closed")), r, p, db) in
      elim (Bool-cases p.closed) [
        | inl c ↦
            let was = subst (λ b. Gives (if b then refused else answer) a r') c (h, k) in cc (was.0)
        | inr c ↦
            found_ok w s p db r (first (has_key s.id) p.conns) a r'
              (subst (λ b. Gives (if b then refused else answer) a r') c (h, k))
      ]
