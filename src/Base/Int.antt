-- ===== src/Base/Int.antt =====
-- Signed integers over the native numbers, and two's complement.
use Prim.Native.Nat.{ℕ, ◌+◌, ◌-◌, ◌<◌}
use mathlib.Core.Path.{◌≡◌}
use native.Mathlib.Omega.{arith}
use v3_node.Base.Tests.{ltb, if◌then◌else◌}

-- `negsuc n` is -(n + 1).
pub data ℤ : Type 0 where
  pos : ℕ → ℤ
  negsuc : ℕ → ℤ

-- The integer that a pattern of a two's complement type stands for, where `half` is 2 ^ (w - 1).
unfoldable pub signed : ℕ → ℕ → ℤ
signed half n = if ltb n half then pos n else negsuc (half + half - n - 1)

-- -half ≤ z < half
abbrev pub FitsSigned : ℕ → ℤ → Type 0
FitsSigned half (pos n) = n < half
FitsSigned half (negsuc n) = n < half

pub signed-FitsSigned : (half n : ℕ) → 0 < half → FitsSigned half (signed half n)
unfolding signed
signed-FitsSigned half n h = ground arith

pub signed-injective :
    (half a b : ℕ) → a < half + half → b < half + half → signed half a ≡ signed half b → a ≡ b
unfolding signed
signed-injective half a b ha hb e = ground arith
