-- ===== src/Base/Errors.antt =====
-- The errors that the program makes and tells apart. A message is not modelled as text: an error
-- keeps the values that its message shows.
use Prim.Native.Nat.{ℕ}
use Prim.Native.String.{String}
use mathlib.Core.Path.{◌≡◌, refl}
use mathlib.Core.Logic.{◌⊎◌, inl, inr}
use sftp_relay.Base.Strings.{Text}

pub data Error : Type 0 where
  -- db.ErrNotFound
  not_found : ℕ → Error
  -- jobs.ErrIllegalTransition
  unknown_status : String → Error
  illegal_move : String → String → Error
  not_finished : ℕ → String → Error
  -- nas.ErrOutsideRoots and nas.ErrNoRoots
  outside_roots : Text → Error
  resolves_outside : Text → Text → Error
  no_roots : Error
  -- path errors of the nas package
  empty_path null_byte : Error
  not_absolute : Text → Error
  unusable_path : Text → Error → Error
  unresolvable : Text → Error → Error
  -- nas.ErrNoHostKey, nas.ErrNoSSHPass, nas.ErrNotConfigured
  no_host_key no_sshpass not_configured : Error
  -- ErrHostKeyChanged of nas and of sftpclient, with the host
  host_key_changed : Text → Error
  -- context.DeadlineExceeded
  deadline_exceeded : Error
  -- an error of the driver, the network or the operating system
  external : Text → Error

pub data Result {ℓ} (A : Type ℓ) : Type ℓ where
  ok : A → Result A
  err : Error → Result A

infixl 5 ◌>>=◌
abbrev pub ◌>>=◌ {ℓ κ} : {A : Type ℓ} {B : Type κ} → Result A → (A → Result B) → Result B
ok a >>= f = f a
err e >>= f = err e

pub result_cases {ℓ} :
    {A : Type ℓ} (r : Result A) → ((a : A) × (r ≡ ok a)) ⊎ ((e : Error) × (r ≡ err e))
result_cases (ok a) = inl (a, refl)
result_cases (err e) = inr (e, refl)

-- What a chain that succeeds went through.
pub bind_ok {ℓ κ} :
    {A : Type ℓ} {B : Type κ} (r : Result A) (f : A → Result B) (b : B)
    → (r >>= f) ≡ ok b
    → (a : A) × (r ≡ ok a) × (f a ≡ ok b)
bind_ok (ok a) f b h = (a, refl, h)
bind_ok (err e) f b h = cc

pub ok_injective {ℓ} : {A : Type ℓ} (a b : A) → Result.ok a ≡ ok b → a ≡ b
ok_injective a b h = cc
