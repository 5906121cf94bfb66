-- ===== src/Api/Access.antt =====
-- Basic authentication (internal/api/api.go). The hash is a parameter; a request without credentials
-- in its header is `none`.
pub mod Guarded
use sftp_relay.Base.{
  ℕ, Text, [], Bool, true, false, ◌||◌, ◌&&◌, Option, none, some, text_eq, ◌==◌, if◌then◌else◌,
  codes, external,
}
use sftp_relay.Config.{Config}
use sftp_relay.Api.{Reply, write_status}

-- subtle.ConstantTimeCompare, for digests, which have one length.
abbrev pub compare_digests : Text → Text → ℕ
compare_digests s t = if text_eq s t then 1 else 0

-- The & of two numbers that are 0 or 1.
abbrev pub both : ℕ → ℕ → ℕ
both m n = if m == 1 && n == 1 then 1 else 0

module _ (digest : Text → Text) where
  -- Credentials that are not configured match nothing.
  unfoldable pub creds_match : Text → Text → Text → Text → Bool
  creds_match user pass want_user want_pass =
      let user_ok = compare_digests (digest user) (digest want_user) in
      let pass_ok = compare_digests (digest pass) (digest want_pass) in
      if text_eq want_user [] || text_eq want_pass [] then false else both user_ok pass_ok == 1

  abbrev pub admits : Config → Option (Text × Text) → Bool
  admits c none = false
  admits c (some (user, pass)) = creds_match user pass c.auth_user c.auth_pass

  -- The handler behind it, or the refusal.
  unfoldable pub basic_auth {ℓ} :
      {S : Type ℓ} → Config → Option (Text × Text) → (S → S × Reply) → S → S × Reply
  unfolding creds_match
  basic_auth c creds next s =
      if admits c creds then next s else (s, write_status 401 (external (codes "unauthorized")))
