-- ===== src/Base/Int.antt =====
-- C++ integers: the mathematical ones, and the casts between `int` and `size_t`.
use Prim.Native.Nat.{ℕ, zero, suc, ◌+◌, ◌-◌, ◌%◌, ◌^◌, ◌<◌}
use mathlib.Core.Path.{◌≡◌, refl}
use mathlib.Core.Bool.{Bool, true, false}
use native.Mathlib.Omega.{arith}
use asabru_commons.Base.Tests.{ltb, leb, if◌then◌else◌}

-- `negsuc n` is -(n + 1).
pub data ℤ : Type 0 where
  pos : ℕ → ℤ
  negsuc : ℕ → ℤ

abbrev pub pos_part : ℤ → ℕ
pos_part (pos n) = n
pos_part (negsuc n) = 0

abbrev pub neg_part : ℤ → ℕ
neg_part (pos n) = 0
neg_part (negsuc n) = suc n

-- a - b, as an integer.
abbrev pub sub_ℕ : ℕ → ℕ → ℤ
sub_ℕ a b = if leb b a then pos (a - b) else negsuc (b - a - 1)

infixl 65 ◌+ℤ◌ ◌-ℤ◌
unfoldable pub ◌+ℤ◌ : ℤ → ℤ → ℤ
a +ℤ b = sub_ℕ (pos_part a + pos_part b) (neg_part a + neg_part b)

unfoldable pub ◌-ℤ◌ : ℤ → ℤ → ℤ
a -ℤ b = sub_ℕ (pos_part a + neg_part b) (neg_part a + pos_part b)

abbrev pub ltb_ℤ : ℤ → ℤ → Bool
ltb_ℤ a b = ltb (pos_part a + neg_part b) (pos_part b + neg_part a)

abbrev pub is_zero : ℤ → Bool
is_zero (pos zero) = true
is_zero (pos (suc n)) = false
is_zero (negsuc n) = false

-- The conversion of an `int` to `size_t`, modulo 2 ^ 64.
unfoldable pub to_size : ℤ → ℕ
to_size (pos n) = n % 2 ^ 64
to_size (negsuc n) = 2 ^ 64 - suc n % 2 ^ 64

-- The conversion of a `size_t` to `int`, modulo 2 ^ 32.
unfoldable pub to_int : ℕ → ℤ
to_int n = let r = n % 2 ^ 32 in if ltb r (2 ^ 31) then pos r else negsuc (2 ^ 32 - r - 1)

pub to_size-pos : (n : ℕ) → n < 2 ^ 64 → to_size (pos n) ≡ n
unfolding to_size
to_size-pos n h = omega arith

pub to_int_of_lt : (n : ℕ) → n < 2 ^ 31 → to_int n ≡ pos n
unfolding to_int
to_int_of_lt n h = ground arith

-- `i + 1` for an index that is -1 or in range.
pub +ℤ-one : (n : ℕ) → pos n +ℤ pos 1 ≡ pos (suc n)
unfolding ◌+ℤ◌
+ℤ-one n = ground arith

pub +ℤ-one_neg : negsuc 0 +ℤ pos 1 ≡ pos 0
unfolding ◌+ℤ◌
+ℤ-one_neg = refl

pub ltb_ℤ-pos : (a b : ℕ) → ltb_ℤ (pos a) (pos b) ≡ ltb a b
ltb_ℤ-pos a b = ground arith

abbrev pub is_minus_one : ℤ → Bool
is_minus_one (pos n) = false
is_minus_one (negsuc zero) = true
is_minus_one (negsuc (suc n)) = false
