-- ===== src/Base/Int.antt =====
-- Python's unbounded integers over the native numbers.
use Prim.Native.Nat.{ℕ, ◌≤◌}
use mathlib.Core.Bool.{Bool}
use native.Mathlib.Omega.{arith}
use hermes_cashew.Base.Tests.{leb, ltb, if◌then◌else◌}

-- `negsuc n` is -(n + 1).
pub data ℤ : Type 0 where
  pos : ℕ → ℤ
  negsuc : ℕ → ℤ

abbrev pub leb_ℤ : ℤ → ℤ → Bool
leb_ℤ (pos m) (pos n) = leb m n
leb_ℤ (pos m) (negsuc n) = Bool.false
leb_ℤ (negsuc m) (pos n) = Bool.true
leb_ℤ (negsuc m) (negsuc n) = leb n m

abbrev pub ltb_ℤ : ℤ → ℤ → Bool
ltb_ℤ (pos m) (pos n) = ltb m n
ltb_ℤ (pos m) (negsuc n) = Bool.false
ltb_ℤ (negsuc m) (pos n) = Bool.true
ltb_ℤ (negsuc m) (negsuc n) = ltb n m

-- `max(0, min(value, bound))`, as a number.
unfoldable pub clamp_to : ℤ → ℕ → ℕ
clamp_to (pos n) bound = if leb n bound then n else bound
clamp_to (negsuc n) bound = 0

pub clamp_to-le : (z : ℤ) (bound : ℕ) → clamp_to z bound ≤ bound
unfolding clamp_to
clamp_to-le (pos n) bound = ground arith
clamp_to-le (negsuc n) bound = omega arith
