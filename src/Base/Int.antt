-- ===== src/Base/Int.antt =====
-- int64 values: integers in two's complement range, with wrap-around and truncated division.
use Prim.Native.Nat.{ℕ, suc, ◌+◌, ◌-◌, ◌*◌, ◌/◌, ◌%◌, ◌^◌, ◌≤◌, ◌<◌}
use mathlib.Core.Path.{◌≡◌}
use mathlib.Core.Bool.{Bool}
use native.Mathlib.Omega.{arith}
use sftp_relay.Base.Tests.{ltb, if◌then◌else◌}

-- `negsuc n` is -(n + 1).
pub data ℤ : Type 0 where
  pos : ℕ → ℤ
  negsuc : ℕ → ℤ

abbrev pub pos_part : ℤ → ℕ
pos_part (pos n) = n
pos_part (negsuc n) = 0

abbrev pub neg_part : ℤ → ℕ
neg_part (pos n) = 0
neg_part (negsuc n) = suc n

infix 50 ◌≤ℤ◌
abbrev pub ◌≤ℤ◌ : ℤ → ℤ → Type 0
a ≤ℤ b = pos_part a + neg_part b ≤ pos_part b + neg_part a

abbrev pub ltb_ℤ : ℤ → ℤ → Bool
ltb_ℤ a b = ltb (pos_part a + neg_part b) (pos_part b + neg_part a)

-- The int64 value of a bit pattern.
abbrev pub of_bits64 : ℕ → ℤ
of_bits64 n = let r = n % 2 ^ 64 in if ltb r (2 ^ 63) then pos r else negsuc (2 ^ 64 - 1 - r)

-- The int64 product, which wraps around.
unfoldable pub mul64 : ℤ → ℤ → ℤ
mul64 (pos a) (pos b) = of_bits64 (a * b)
mul64 (pos a) (negsuc b) = of_bits64 (2 ^ 64 - (a * suc b) % 2 ^ 64)
mul64 (negsuc a) (pos b) = of_bits64 (2 ^ 64 - (suc a * b) % 2 ^ 64)
mul64 (negsuc a) (negsuc b) = of_bits64 (suc a * suc b)

-- The bit pattern of an int64 value.
abbrev pub bits64 : ℤ → ℕ
bits64 (pos n) = n % 2 ^ 64
bits64 (negsuc n) = 2 ^ 64 - 1 - n % 2 ^ 64

-- The int64 sum, which wraps around.
unfoldable pub add64 : ℤ → ℤ → ℤ
add64 a b = of_bits64 (bits64 a + bits64 b)

-- Division by a positive number, truncated towards zero.
unfoldable pub quot : ℤ → ℕ → ℤ
quot (pos a) d = pos (a / d)
quot (negsuc a) d = if ltb (suc a) d then pos 0 else negsuc (suc a / d - 1)

pub ≤ℤ_refl : (a : ℤ) → a ≤ℤ a
≤ℤ_refl a = omega arith

pub ≤ℤ_trans : (a b c : ℤ) → a ≤ℤ b → b ≤ℤ c → a ≤ℤ c
≤ℤ_trans a b c h k = omega arith

-- A product that fits is exact.
pub mul64_exact : (a b : ℕ) → a * b < 2 ^ 63 → mul64 (pos a) (pos b) ≡ pos (a * b)
unfolding mul64
mul64_exact a b h = ground arith

-- A sum that fits is exact.
pub add64_exact : (a b : ℕ) → a + b < 2 ^ 63 → add64 (pos a) (pos b) ≡ pos (a + b)
unfolding add64
add64_exact a b h = ground arith
