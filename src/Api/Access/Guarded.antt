-- ===== src/Api/Access/Guarded.antt =====
-- Who gets past the authentication (internal/api/api.go).
use sftp_relay.Base.{
  Text, [], true, false, Option, none, some, text_eq, text_eq_iff, codes, external, ◌≡◌, refl, sym,
  ap, ◌∙◌, subst, Bool-cases, ◌⊎◌, inl, inr,
}
use sftp_relay.Config.{Config}
use sftp_relay.Api.{Reply, write_status}
use sftp_relay.Api.Access.{creds_match, admits, basic_auth}

-- No other text has the digest of this one.
abbrev pub IsUnique : (Text → Text) → Text → Type 0
IsUnique digest t = (u : Text) → digest u ≡ digest t → u ≡ t

-- The configured credentials, neither of which is empty.
abbrev pub IsConfigured : Config → Option (Text × Text) → Type 0
IsConfigured c creds =
    (creds ≡ some (c.auth_user, c.auth_pass))
    × (text_eq c.auth_user [] ≡ false)
    × (text_eq c.auth_pass [] ≡ false)

creds_match_ok :
    (digest : Text → Text) (user pass want_user want_pass : Text)
    → creds_match digest user pass want_user want_pass ≡ true
    → (digest user ≡ digest want_user)
      × (digest pass ≡ digest want_pass)
      × (text_eq want_user [] ≡ false)
      × (text_eq want_pass [] ≡ false)
unfolding creds_match
creds_match_ok digest user pass want_user want_pass h = elim (Bool-cases (text_eq want_user [])) [
  | inl e ↦ cc (rw e at h)
  | inr u ↦ elim (Bool-cases (text_eq want_pass [])) [
    | inl e ↦ cc (rw (u, e) at h)
    | inr p ↦ elim (Bool-cases (text_eq (digest user) (digest want_user))) [
      | inr a ↦ cc (rw (u, p, a) at h)
      | inl a ↦ elim (Bool-cases (text_eq (digest pass) (digest want_pass))) [
        | inr b ↦ cc (rw (u, p, a, b) at h)
        | inl b ↦ (
          (text_eq_iff (digest user) (digest want_user)).0 a,
          (text_eq_iff (digest pass) (digest want_pass)).0 b,
          u,
          p,
        )
      ]
    ]
  ]
]

creds_match_same :
    (digest : Text → Text) (user pass : Text)
    → text_eq user [] ≡ false
    → text_eq pass [] ≡ false
    → creds_match digest user pass user pass ≡ true
unfolding creds_match
creds_match_same digest user pass u p =
    rw
      (
        u,
        p,
        (text_eq_iff (digest user) (digest user)).1 refl,
        (text_eq_iff (digest pass) (digest pass)).1 refl,
      )
      refl

configured_match :
    (digest : Text → Text) (c : Config) (user pass : Text)
    → IsConfigured c (some (user, pass))
    → creds_match digest user pass c.auth_user c.auth_pass ≡ true
configured_match digest c user pass (same, u, p) =
    subst (λ o. admits digest c o ≡ true) (sym same)
      (creds_match_same digest c.auth_user c.auth_pass u p)

-- If the hash tells the configured user and password from all other texts, a request reaches its
-- handler just if it carries these two and neither of them is empty. Any other is refused with 401 and
-- changes nothing.
pub basic_auth-IsConfigured :
    {S : Type 0} (digest : Text → Text) (c : Config) (creds : Option (Text × Text))
    (next : S → S × Reply) (s : S)
    → IsUnique digest c.auth_user
    → IsUnique digest c.auth_pass
    → (IsConfigured c creds × (basic_auth digest c creds next s ≡ next s))
      ⊎ ((IsConfigured c creds → ⊥)
          × (basic_auth digest c creds next s
              ≡ (s, write_status 401 (external (codes "unauthorized")))))
unfolding basic_auth
basic_auth-IsConfigured digest c none next s user_unique pass_unique = inr (λ k. cc (k.0), refl)
basic_auth-IsConfigured digest c (some (user, pass)) next s user_unique pass_unique =
    elim (Bool-cases (creds_match digest user pass c.auth_user c.auth_pass)) [
      | inl e ↦
          let (same_user, same_pass, u, p) =
            creds_match_ok digest user pass c.auth_user c.auth_pass e in
          inl (
            (
              ap (λ t. some (t, pass)) (user_unique user same_user)
                  ∙ ap (λ t. some (c.auth_user, t)) (pass_unique pass same_pass),
              u,
              p,
            ),
            rw e refl,
          )
      | inr e ↦ inr (λ k. cc (e, configured_match digest c user pass k), rw e refl)
    ]
