-- ===== src/Base/Int.antt =====
-- Signed integers over the native numbers, for the big.Int values that can fall below zero.
use aiops_bundler.Base.Tests.{leb, ltb, if◌then◌else◌}
use Prim.Native.Nat.{ℕ, suc, ◌+◌, ◌-◌, ◌<◌}
use mathlib.Core.Path.{◌≡◌}
use mathlib.Core.Logic.{◌↔◌}
use mathlib.Core.Bool.{Bool, true}
use native.Mathlib.Omega.{arith}

-- `negsuc n` is -(n + 1).
pub data ℤ : Type 0 where
  pos : ℕ → ℤ
  negsuc : ℕ → ℤ

abbrev pub pos_part : ℤ → ℕ
pos_part (pos n) = n
pos_part (negsuc n) = 0

abbrev pub neg_part : ℤ → ℕ
neg_part (pos n) = 0
neg_part (negsuc n) = suc n

-- a - b, as an integer.
abbrev pub sub_ℕ : ℕ → ℕ → ℤ
sub_ℕ a b = if leb b a then pos (a - b) else negsuc (b - a - 1)

infixl 65 ◌-ℤ◌
unfoldable pub ◌-ℤ◌ : ℤ → ℤ → ℤ
a -ℤ b = sub_ℕ (pos_part a + neg_part b) (neg_part a + pos_part b)

unfoldable pub is_negative : ℤ → Bool
is_negative a = ltb (pos_part a) (neg_part a)

pub is_negative-sub : (a b : ℕ) → (is_negative (pos a -ℤ pos b) ≡ true) ↔ (a < b)
unfolding ◌-ℤ◌ is_negative
is_negative-sub a b = ground arith

pub sub-sub : (z : ℤ) (a b : ℕ) → z -ℤ pos a -ℤ pos b ≡ z -ℤ pos (a + b)
unfolding ◌-ℤ◌ is_negative
sub-sub z a b = ground arith
