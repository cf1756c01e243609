-- ===== src/Base/Int.antt =====
-- Signed integers over the native numbers, for the `int64` identifiers and amounts of the program.
use Prim.Native.Nat.{ℕ, ◌-◌, ◌%◌, ◌^◌, ◌<◌}
use mathlib.Core.Path.{◌≡◌}
use mathlib.Core.Logic.{◌↔◌}
use mathlib.Core.Bool.{Bool, true, false}
use native.Mathlib.Omega.{arith}
use karpenter_provider_hetzn.Base.Tests.{ltb, ◌==◌, if◌then◌else◌}

-- `negsuc n` is -(n + 1).
pub data ℤ : Type 0 where
  pos : ℕ → ℤ
  negsuc : ℕ → ℤ

-- `a == b` on int64.
unfoldable pub eq_ℤ : ℤ → ℤ → Bool
eq_ℤ (pos a) (pos b) = a == b
eq_ℤ (negsuc a) (negsuc b) = a == b
eq_ℤ (pos a) (negsuc b) = false
eq_ℤ (negsuc a) (pos b) = false

pub eq_ℤ_iff : (a b : ℤ) → (eq_ℤ a b ≡ true) ↔ (a ≡ b)
unfolding eq_ℤ
eq_ℤ_iff (pos a) (pos b) = ground arith
eq_ℤ_iff (negsuc a) (negsuc b) = ground arith
eq_ℤ_iff (pos a) (negsuc b) = ground arith
eq_ℤ_iff (negsuc a) (pos b) = ground arith

-- `a > 0`
abbrev pub is_pos : ℤ → Bool
is_pos (pos n) = ltb 0 n
is_pos (negsuc n) = false

abbrev pub int64_half : ℕ
int64_half = 2 ^ 63

-- The values of an int64.
abbrev pub IsInt64 : ℤ → Type 0
IsInt64 (pos n) = n < int64_half
IsInt64 (negsuc n) = n < int64_half

-- The int64 with the low 64 bits of a product of two non-negative numbers.
unfoldable pub wrap64 : ℕ → ℤ
wrap64 n = let low = n % 2 ^ 64 in if ltb low int64_half then pos low else negsuc (2 ^ 64 - low - 1)

pub wrap64-IsInt64 : (n : ℕ) → IsInt64 (wrap64 n)
unfolding wrap64
wrap64-IsInt64 n = ground arith

pub wrap64_of_lt : (n : ℕ) → n < int64_half → wrap64 n ≡ pos n
unfolding wrap64
wrap64_of_lt n h = ground arith
