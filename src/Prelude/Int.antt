-- ===== src/Prelude/Int.antt =====
-- Signed integers over the native numbers, for Go's `int` and `int64` where a value can fall below
-- zero. The ranges of the program's counters keep them far from the wrap-around.
use Prim.Native.Nat.{ℕ, suc, ◌+◌, ◌-◌}
use mathlib.Core.Path.{◌≡◌}
use mathlib.Core.Bool.{Bool}
use native.Mathlib.Omega.{arith}
use alg_bc_db.Prelude.Tests.{ltb, leb, if◌then◌else◌}

-- `negsuc n` is -(n + 1).
pub data ℤ : Type 0 where
  pos : ℕ → ℤ
  negsuc : ℕ → ℤ

abbrev pub pos_part : ℤ → ℕ
pos_part (pos n) = n
pos_part (negsuc n) = 0

abbrev pub neg_part : ℤ → ℕ
neg_part (pos n) = 0
neg_part (negsuc n) = suc n

abbrev pub sub_ℕ : ℕ → ℕ → ℤ
sub_ℕ a b = if leb b a then pos (a - b) else negsuc (b - a - 1)

infixl 65 ◌+ℤ◌ ◌-ℤ◌
unfoldable pub ◌+ℤ◌ : ℤ → ℤ → ℤ
a +ℤ b = sub_ℕ (pos_part a + pos_part b) (neg_part a + neg_part b)

unfoldable pub ◌-ℤ◌ : ℤ → ℤ → ℤ
a -ℤ b = sub_ℕ (pos_part a + neg_part b) (neg_part a + pos_part b)

abbrev pub ltb_ℤ : ℤ → ℤ → Bool
ltb_ℤ a b = ltb (pos_part a + neg_part b) (pos_part b + neg_part a)

-- Adding one, and taking one from a positive number.
pub +ℤ-one : (n : ℕ) → pos n +ℤ pos 1 ≡ pos (n + 1)
unfolding ◌+ℤ◌
+ℤ-one n = ground arith

pub -ℤ-one : (n : ℕ) → pos (suc n) -ℤ pos 1 ≡ pos n
unfolding ◌-ℤ◌
-ℤ-one n = ground arith
