-- ===== src/Prelude/Int.antt =====
-- Python's `int` where the source lets it be negative.
use Prim.Native.Nat.{ℕ, suc, ◌+◌}
use mathlib.Core.Bool.{Bool}
use radio_broadcast_analysis.Prelude.Tests.{leb}

-- `negsuc n` is -(n + 1).
pub data ℤ : Type 0 where
  pos : ℕ → ℤ
  negsuc : ℕ → ℤ

-- max(0, a)
abbrev pub pos_part : ℤ → ℕ
pos_part (pos n) = n
pos_part (negsuc n) = 0

-- max(0, -a)
abbrev pub neg_part : ℤ → ℕ
neg_part (pos n) = 0
neg_part (negsuc n) = suc n

-- a <= b
abbrev pub le_ints : ℤ → ℤ → Bool
le_ints a b = leb (pos_part a + neg_part b) (pos_part b + neg_part a)
