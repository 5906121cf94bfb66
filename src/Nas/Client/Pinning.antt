-- ===== src/Nas/Client/Pinning.antt =====
-- The host key of the NAS, from the first connection on (internal/nas/nas.go).
use sftp_relay.Base.{
  String, Text, List, [], ◌∷◌, true, false, ◌||◌, Option, none, some, lookup, assign, str_eq,
  eq_refl, text_eq, text_eq_iff, trim_space, trim_space_idempotent, if◌then◌else◌, codes, external,
  ◌≡◌, refl, sym, ap, ◌∙◌, Bool-cases, inl, inr, Error, Result, ok, err, ◌>>=◌, bind_ok,
  ok_injective,
}
use sftp_relay.Db.Rows.{Database}
use sftp_relay.Db.Settings.{settings, set_settings, assign_all}
use sftp_relay.Nas.Client.{
  NasConfig, Session, Client, Wire, setting, nas_config, attempt, accept_key, pin_key, opened,
  handshake, dial, dialled_to, live_or, connect, or_empty,
}

pub lookup-assign :
    (k : String) (v : Text) (m : List (String × Text)) → lookup k (assign k v m) ≡ some v
lookup-assign k v [] = rw (eq_refl k) refl
lookup-assign k v ((j, w) ∷ m) = elim (Bool-cases (str_eq j k)) [
  | inl e ↦ rw (e, e) refl
  | inr e ↦ rw (e, e) (lookup-assign k v m)
]

attempt_ok {ℓ} :
    {A : Type ℓ} (o : Option Error) (r : Result A) (a : A)
    → attempt o r ≡ ok a
    → (o ≡ none) × (r ≡ ok a)
attempt_ok none r a h = (refl, h)
attempt_ok (some e) r a h = cc

nas_config_key :
    (db : Database) (cfg : NasConfig)
    → nas_config db ≡ ok cfg
    → cfg.host_key ≡ setting "nas_host_key" db
unfolding nas_config
nas_config_key db cfg h =
    elim (Bool-cases (text_eq (setting "nas_host" db) [] || text_eq (setting "nas_user" db) [])) [
      | inl e ↦ cc (rw e at h)
      | inr e ↦ sym (ap (λ c. c.host_key) (ok_injective _ cfg (rw e at h)))
    ]

handshake_ok :
    (cfg : NasConfig) (w : Wire) (db : Database) (observed : Text) (s : Session) (db' : Database)
    → handshake cfg w db observed ≡ ok (s, db')
    → (accept_key cfg observed ≡ none) × (s.key ≡ observed) × (db' ≡ pin_key cfg observed db)
unfolding handshake
handshake_ok cfg w db observed s db' h =
    let end : Result (Session × Database) = ok (opened cfg observed, pin_key cfg observed db) in
    let (accepted, h₁) =
      attempt_ok (accept_key cfg observed)
        (attempt w.rejected (attempt w.deadline_cleared (attempt w.subsystem end))) (s, db') h in
    let (_, h₂) =
      attempt_ok w.rejected (attempt w.deadline_cleared (attempt w.subsystem end)) (s, db') h₁ in
    let (_, h₃) = attempt_ok w.deadline_cleared (attempt w.subsystem end) (s, db') h₂ in
    let (_, h₄) = attempt_ok w.subsystem end (s, db') h₃ in
    let same = ok_injective (opened cfg observed, pin_key cfg observed db) (s, db') h₄ in
    (accepted, sym (ap (λ p. p.0.key) same), sym (ap (λ p. p.1) same))

dial_ok :
    (w : Wire) (db : Database) (s : Session) (db' : Database)
    → dial w db ≡ ok (s, db')
    → (cfg : NasConfig) × (k : Text) × (nas_config db ≡ ok cfg)
      × (s.key ≡ trim_space k)
      × (accept_key cfg s.key ≡ none)
      × (db' ≡ pin_key cfg s.key db)
unfolding dial
dial_ok w db s db' h =
    let shake : NasConfig → Text → Result (Session × Database) =
      λ cfg k. handshake cfg w db (trim_space k) in
    let wired : NasConfig → Text → Result (Session × Database) = λ cfg key.
      attempt (w.key_parsed key)
        (attempt w.dialled (attempt w.deadline_set (w.exchanged >>= shake cfg))) in
    let (cfg, hc, h₁) = bind_ok (nas_config db) (λ cfg. w.key_read >>= wired cfg) (s, db') h in
    let (key, _, h₂) = bind_ok w.key_read (wired cfg) (s, db') h₁ in
    let (_, h₃) =
      attempt_ok (w.key_parsed key)
        (attempt w.dialled (attempt w.deadline_set (w.exchanged >>= shake cfg))) (s, db') h₂ in
    let (_, h₄) =
      attempt_ok w.dialled (attempt w.deadline_set (w.exchanged >>= shake cfg)) (s, db') h₃ in
    let (_, h₅) = attempt_ok w.deadline_set (w.exchanged >>= shake cfg) (s, db') h₄ in
    let (k, _, h₆) = bind_ok w.exchanged (shake cfg) (s, db') h₅ in
    let (accepted, same, stored) = handshake_ok cfg w db (trim_space k) s db' h₆ in
    (
      cfg,
      k,
      hc,
      same,
      ap (accept_key cfg) same ∙ accepted,
      stored ∙ ap (λ o. pin_key cfg o db) (sym same),
    )

accepted_same :
    (cfg : NasConfig) (observed : Text)
    → text_eq cfg.host_key [] ≡ false
    → accept_key cfg observed ≡ none
    → observed ≡ cfg.host_key
unfolding accept_key
accepted_same cfg observed stored h = elim (Bool-cases (text_eq observed cfg.host_key)) [
  | inl e ↦ (text_eq_iff observed cfg.host_key).0 e
  | inr e ↦ cc (rw (stored, e) at h)
]

-- A client of the settings `db` with no session.
abbrev pub IsIdle : Client → Type 0
IsIdle c = (c.closed ≡ false) × (c.session ≡ none)

connect_idle : (w : Wire) (c : Client) → IsIdle c → connect w c ≡ dialled_to c (dial w c.db)
unfolding connect
connect_idle w c (o, n) =
    ap (λ b. if b then (err (external (codes "client is closed")), c) else live_or w c c.session) o
    ∙ ap (live_or w c) n

abbrev outcome_of : Result Session × Client → Result (Session × Database)
outcome_of (ok s, c) = ok (s, c.db)
outcome_of (err e, c) = err e

outcome_of-dialled_to :
    (c : Client) (r : Result (Session × Database)) → outcome_of (dialled_to c r) ≡ r
outcome_of-dialled_to c (ok (s, db)) = refl
outcome_of-dialled_to c (err e) = refl

connect_dials :
    (w : Wire) (c : Client) (s : Session) (c' : Client)
    → IsIdle c
    → connect w c ≡ (ok s, c')
    → dial w c.db ≡ ok (s, c'.db)
connect_dials w c s c' idle h =
    sym (outcome_of-dialled_to c (dial w c.db)) ∙ ap outcome_of (sym (connect_idle w c idle) ∙ h)

pin_key_first :
    (cfg : NasConfig) (k : Text) (db : Database)
    → text_eq cfg.host_key [] ≡ true
    → text_eq k [] ≡ false
    → pin_key cfg k db ≡ set_settings (("nas_host_key", k) ∷ []) db
unfolding pin_key
pin_key_first cfg k db a b = rw (a, b) refl

pin_key_kept :
    (cfg : NasConfig) (k : Text) (db : Database)
    → text_eq cfg.host_key [] ≡ false
    → pin_key cfg k db ≡ db
unfolding pin_key
pin_key_kept cfg k db a = rw a refl

-- While no host key is stored, a connection that succeeds under a key that is not blank stores it in
-- the settings. From then on, as long as that setting stays, a client without a session connects
-- only to a host that proves the same key, whatever the network does, and changes no setting.
pub connect-pins_first_key :
    (w : Wire) (c : Client) (s : Session) (c' : Client)
    → IsIdle c
    → setting "nas_host_key" c.db ≡ []
    → connect w c ≡ (ok s, c')
    → text_eq s.key [] ≡ false
    → (setting "nas_host_key" c'.db ≡ s.key)
      × ((w₁ : Wire) (c₁ : Client) (s₁ : Session) (c₂ : Client)
          → IsIdle c₁
          → setting "nas_host_key" c₁.db ≡ s.key
          → connect w₁ c₁ ≡ (ok s₁, c₂)
          → (s₁.key ≡ s.key) × (c₂.db ≡ c₁.db))
unfolding set_settings assign_all settings
connect-pins_first_key w c s c' idle blank h shown =
    let (cfg, k, hc, trimmed, _, stored) = dial_ok w c.db s c'.db (connect_dials w c s c' idle h) in
    let none_yet : text_eq cfg.host_key [] ≡ true =
      ap (λ t. text_eq t []) (nas_config_key c.db cfg hc ∙ blank) in
    (
      ap (setting "nas_host_key") (stored ∙ pin_key_first cfg s.key c.db none_yet shown)
          ∙ ap (λ o. trim_space (or_empty o)) (lookup-assign "nas_host_key" s.key c.db.settings)
          ∙ ap trim_space trimmed
          ∙ trim_space_idempotent k
          ∙ sym trimmed,
      λ w₁ c₁ s₁ c₂ idle₁ kept h₁.
          let (cfg₁, _, hc₁, _, accepted, stored₁) =
            dial_ok w₁ c₁.db s₁ c₂.db (connect_dials w₁ c₁ s₁ c₂ idle₁ h₁) in
          let key₁ = nas_config_key c₁.db cfg₁ hc₁ ∙ kept in
          let there : text_eq cfg₁.host_key [] ≡ false = ap (λ t. text_eq t []) key₁ ∙ shown in
          (
            accepted_same cfg₁ s₁.key there accepted ∙ key₁,
            stored₁ ∙ pin_key_kept cfg₁ s₁.key c₁.db there,
          ),
    )
