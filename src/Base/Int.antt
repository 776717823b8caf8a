-- ===== src/Base/Int.antt =====
-- Go's `int` and `int64`, as integers over the native numbers. They do not wrap: the values that
-- the proxy counts stay far below 2^63.
use Prim.Native.Nat.{ℕ, zero, suc, ◌+◌, ◌-◌, ◌*◌, compare, Ordering}
use mathlib.Core.Path.{◌≡◌}
use mathlib.Core.Bool.{Bool, true, false}
use native.Mathlib.Omega.{arith}

-- `negsuc n` is -(n + 1).
pub data ℤ : Type 0 where
  pos : ℕ → ℤ
  negsuc : ℕ → ℤ

abbrev pub pos_part : ℤ → ℕ
pos_part (pos n) = n
pos_part (negsuc n) = 0

abbrev pub neg_part : ℤ → ℕ
neg_part (pos n) = 0
neg_part (negsuc n) = suc n

-- a - b, as an integer.
abbrev pub sub_ℕ : ℕ → ℕ → ℤ
sub_ℕ a b = elim (compare a b) [ Ordering.lt ↦ negsuc (b - a - 1) | _ ↦ pos (a - b) ]

infixl 65 ◌+ℤ◌ ◌-ℤ◌
infixl 70 ◌*ℤ◌
unfoldable pub ◌+ℤ◌ : ℤ → ℤ → ℤ
a +ℤ b = sub_ℕ (pos_part a + pos_part b) (neg_part a + neg_part b)

unfoldable pub ◌-ℤ◌ : ℤ → ℤ → ℤ
a -ℤ b = sub_ℕ (pos_part a + neg_part b) (neg_part a + pos_part b)

unfoldable pub ◌*ℤ◌ : ℤ → ℤ → ℤ
a *ℤ b =
    sub_ℕ (pos_part a * pos_part b + neg_part a * neg_part b)
      (pos_part a * neg_part b + neg_part a * pos_part b)

-- a ≤ b
abbrev pub leb_ℤ : ℤ → ℤ → Bool
leb_ℤ a b = elim (compare (pos_part a + neg_part b) (pos_part b + neg_part a)) [
  | Ordering.gt ↦ false
  | _ ↦ true
]

-- `value <= 0`
abbrev pub is_le_0 : ℤ → Bool
is_le_0 (pos zero) = true
is_le_0 (pos (suc n)) = false
is_le_0 (negsuc n) = true

-- `value < 0`
abbrev pub is_lt_0 : ℤ → Bool
is_lt_0 (pos n) = false
is_lt_0 (negsuc n) = true

-- `value > 0`
abbrev pub is_gt_0 : ℤ → Bool
is_gt_0 (pos zero) = false
is_gt_0 (pos (suc n)) = true
is_gt_0 (negsuc n) = false

pub +ℤ_cancel : (a b : ℤ) → a +ℤ b -ℤ b ≡ a
unfolding ◌+ℤ◌ ◌-ℤ◌
+ℤ_cancel a b = ground arith

pub pos-+ℤ_one : (n : ℕ) → pos n +ℤ pos 1 ≡ pos (suc n)
unfolding ◌+ℤ◌
pos-+ℤ_one n = ground arith

pub pos-ℤ_one : (n : ℕ) → pos (suc n) -ℤ pos 1 ≡ pos n
unfolding ◌-ℤ◌
pos-ℤ_one n = ground arith
