-- ===== src/Prelude/Signed.antt =====
-- Signed integers over the native numbers, with C's division and conversion to `int`.
use Prim.Native.Nat.{ℕ, suc, ◌+◌, ◌-◌, ◌*◌, ◌/◌, ◌%◌, ◌^◌, ◌≤◌}
use mathlib.Core.Path.{◌≡◌, ap}
use mathlib.Core.Logic.{◌⊎◌}
use mathlib.Core.Bool.{Bool, true, false}
use native.Mathlib.Omega.{arith}
use addressroutinggateway.Prelude.Tests.{ltb, leb, if◌then◌else◌}

-- `negsuc n` is -(n + 1).
pub data ℤ : Type 0 where
  pos : ℕ → ℤ
  negsuc : ℕ → ℤ

abbrev pub pos_part : ℤ → ℕ
pos_part (pos n) = n
pos_part (negsuc n) = 0

abbrev pub neg_part : ℤ → ℕ
neg_part (pos n) = 0
neg_part (negsuc n) = suc n

-- a - b, as an integer.
abbrev pub sub_ℕ : ℕ → ℕ → ℤ
sub_ℕ a b = if leb b a then pos (a - b) else negsuc (b - a - 1)

-- -n
abbrev pub neg : ℕ → ℤ
neg n = sub_ℕ 0 n

infixl 65 ◌+ℤ◌ ◌-ℤ◌
infix 50 ◌≤ℤ◌ ◌<ℤ◌
unfoldable pub ◌+ℤ◌ : ℤ → ℤ → ℤ
a +ℤ b = sub_ℕ (pos_part a + pos_part b) (neg_part a + neg_part b)

unfoldable pub ◌-ℤ◌ : ℤ → ℤ → ℤ
a -ℤ b = sub_ℕ (pos_part a + neg_part b) (neg_part a + pos_part b)

abbrev pub ◌≤ℤ◌ : ℤ → ℤ → Type 0
a ≤ℤ b = pos_part a + neg_part b ≤ pos_part b + neg_part a

abbrev pub ◌<ℤ◌ : ℤ → ℤ → Type 0
a <ℤ b = suc (pos_part a + neg_part b) ≤ pos_part b + neg_part a

abbrev pub ltb_ℤ : ℤ → ℤ → Bool
ltb_ℤ a b = ltb (pos_part a + neg_part b) (pos_part b + neg_part a)

abbrev pub is_zero : ℤ → Bool
is_zero (pos n) = leb n 0
is_zero (negsuc n) = false

-- `ret < 0`
abbrev pub is_neg : ℤ → Bool
is_neg (pos n) = false
is_neg (negsuc n) = true

-- k * a for an unsigned k.
unfoldable pub scale : ℕ → ℤ → ℤ
scale k a = sub_ℕ (k * pos_part a) (k * neg_part a)

-- C's `a / k` and `a % k`, which round towards zero.
unfoldable pub quot : ℤ → ℕ → ℤ
quot a k = sub_ℕ (pos_part a / k) (neg_part a / k)

unfoldable pub rem : ℤ → ℕ → ℤ
rem a k = sub_ℕ (pos_part a % k) (neg_part a % k)

-- The pattern of an integer in w bits, and the two's complement integer of a pattern.
unfoldable pub to_unsigned : ℕ → ℤ → ℕ
to_unsigned w a = (pos_part a % 2 ^ w + 2 ^ w - neg_part a % 2 ^ w) % 2 ^ w

unfoldable pub of_unsigned : ℕ → ℕ → ℤ
of_unsigned w p = if ltb p (2 ^ (w - 1)) then pos p else neg (2 ^ w - p)

-- Conversion of a `long` to an `int`, as gcc does it.
unfoldable pub to_int : ℤ → ℤ
unfolding to_unsigned of_unsigned
to_int a = of_unsigned 32 (to_unsigned 32 a)

pub +ℤ_parts :
    (a b : ℤ)
    → pos_part (a +ℤ b) + neg_part a + neg_part b ≡ neg_part (a +ℤ b) + pos_part a + pos_part b
unfolding ◌+ℤ◌
+ℤ_parts a b = ground arith

pub -ℤ_parts :
    (a b : ℤ)
    → pos_part (a -ℤ b) + neg_part a + pos_part b ≡ neg_part (a -ℤ b) + pos_part a + neg_part b
unfolding ◌-ℤ◌
-ℤ_parts a b = ground arith

pub eq_of_parts : (a b : ℤ) → pos_part a + neg_part b ≡ pos_part b + neg_part a → a ≡ b
eq_of_parts a b h = ground arith

pub scale_parts :
    (k : ℕ) (a : ℤ) → pos_part (scale k a) + k * neg_part a ≡ neg_part (scale k a) + k * pos_part a
unfolding scale
scale_parts k a = ground arith

pub quot_pos : (a : ℤ) (k : ℕ) → pos_part (quot a k) ≡ pos_part a / k
unfolding quot
quot_pos (pos n) k = ground arith
quot_pos (negsuc n) k = ground arith

pub quot_neg : (a : ℤ) (k : ℕ) → neg_part (quot a k) ≡ neg_part a / k
unfolding quot
quot_neg (pos n) k = ground arith
quot_neg (negsuc n) k = ground arith

pub rem_pos : (a : ℤ) (k : ℕ) → pos_part (rem a k) ≡ pos_part a % k
unfolding rem
rem_pos (pos n) k = ground arith
rem_pos (negsuc n) k = ground arith

pub rem_neg : (a : ℤ) (k : ℕ) → neg_part (rem a k) ≡ neg_part a % k
unfolding rem
rem_neg (pos n) k = ground arith
rem_neg (negsuc n) k = ground arith

-- One of the two parts is zero.
pub parts_disjoint : (a : ℤ) → (pos_part a ≡ 0) ⊎ (neg_part a ≡ 0)
parts_disjoint a = ground arith

pub is_zero→eq : (a : ℤ) → is_zero a ≡ true → a ≡ pos 0
is_zero→eq a h = ground arith

-- An equation of integers, for `omega`.
pub both_parts : {a b : ℤ} → a ≡ b → (pos_part a ≡ pos_part b) × (neg_part a ≡ neg_part b)
both_parts e = (ap pos_part e, ap neg_part e)

-- What `omega` needs to work with the operations shut.
pub ruleset int_laws = (arith, +ℤ_parts, -ℤ_parts, scale_parts, eq_of_parts)

pub ruleset division_laws = (quot_pos, quot_neg, rem_pos, rem_neg, parts_disjoint)

-- An integer that fits an `int` is kept by the conversion.
pub to_int_of_fits : (a : ℤ) → neg (2 ^ 31) ≤ℤ a → a <ℤ pos (2 ^ 31) → to_int a ≡ a
unfolding to_int
to_int_of_fits a lo hi = ground arith
