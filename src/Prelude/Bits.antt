-- ===== src/Prelude/Bits.antt =====
-- Laws of `bit_and` and `bit_or` at variables, from their digits, for bytes under a mask.
use Prim.Native.Nat.{
  ℕ, zero, suc, ◌+◌, ◌*◌, ◌/◌, ◌%◌, ◌≤◌, min, max, bit_and, bit_or, digits, bit_and-bitwise,
  bit_or-bitwise,
}
use mathlib.Core.Path.{◌≡◌, refl, sym, ap, ◌∙◌, subst}
use native.Mathlib.Omega.{arith}

-- The digits with enough fuel do not depend on the fuel.
pub digits_enough :
    (z : ℕ → ℕ) (f : ℕ → ℕ → ℕ) (n m a b : ℕ) → a ≤ n → a ≤ m → digits z f n a b ≡ digits z f m a b
digits_enough z f zero zero a b p q = refl
digits_enough z f zero (suc m) zero b p q = refl
digits_enough z f zero (suc m) (suc a) b p q = absurd (omega arith)
digits_enough z f (suc n) zero zero b p q = refl
digits_enough z f (suc n) zero (suc a) b p q = absurd (omega arith)
digits_enough z f (suc n) (suc m) zero b p q = refl
digits_enough z f (suc n) (suc m) (suc a) b p q =
    rw (digits_enough z f n m (suc a / 2) (b / 2) (omega arith) (omega arith))

-- The lowest digit and the rest of a conjunction.
and_low : (a b : ℕ) → bit_and a b ≡ bit_and (a / 2) (b / 2) * 2 + min (a % 2) (b % 2)
and_low zero b = omega (arith, bit_and-bitwise 0 b, bit_and-bitwise 0 (b / 2))
and_low (suc a) b = omega (
  arith,
  bit_and-bitwise (suc a) b,
  bit_and-bitwise (suc a / 2) (b / 2),
  digits_enough (λ y. 0) min a (suc a / 2) (suc a / 2) (b / 2) (omega arith) (omega arith),
)

-- The same of a disjunction.
or_low : (a b : ℕ) → bit_or a b ≡ bit_or (a / 2) (b / 2) * 2 + max (a % 2) (b % 2)
or_low zero b = omega (arith, bit_or-bitwise 0 b, bit_or-bitwise 0 (b / 2))
or_low (suc a) b = omega (
  arith,
  bit_or-bitwise (suc a) b,
  bit_or-bitwise (suc a / 2) (b / 2),
  digits_enough (λ y. y) max a (suc a / 2) (suc a / 2) (b / 2) (omega arith) (omega arith),
)

and_half : (a b : ℕ) → bit_and a b / 2 ≡ bit_and (a / 2) (b / 2)
and_half a b = omega (arith, and_low a b)

and_digit : (a b : ℕ) → bit_and a b % 2 ≡ min (a % 2) (b % 2)
and_digit a b = omega (arith, and_low a b)

or_half : (a b : ℕ) → bit_or a b / 2 ≡ bit_or (a / 2) (b / 2)
or_half a b = omega (arith, or_low a b)

or_digit : (a b : ℕ) → bit_or a b % 2 ≡ max (a % 2) (b % 2)
or_digit a b = omega (arith, or_low a b)

and_zero_fuel : (n a : ℕ) → a ≤ n → bit_and a 0 ≡ 0
and_zero_fuel n zero h = refl
and_zero_fuel zero (suc a) h = absurd (omega arith)
and_zero_fuel (suc n) (suc a) h =
    omega (arith, and_low (suc a) 0, and_zero_fuel n (suc a / 2) (omega arith))

pub bit_and-zero : (a : ℕ) → bit_and a 0 ≡ 0
bit_and-zero a = and_zero_fuel a a (omega arith)

-- The number of k ones.
abbrev pub ones : ℕ → ℕ
ones zero = 0
ones (suc k) = ones k * 2 + 1

-- Masking twice is masking once.
pub mask_mask : (k a m : ℕ) → m ≤ ones k → bit_and (bit_and a m) m ≡ bit_and a m
mask_mask zero a m h =
    let m0 : m ≡ 0 = omega arith in rw (m0, bit_and-zero (bit_and a 0), bit_and-zero a)
mask_mask (suc k) a m h = omega (
  arith,
  and_low (bit_and a m) m,
  and_low a m,
  and_digit a m,
  subst (λ (t : ℕ). bit_and t (m / 2) ≡ bit_and (a / 2) (m / 2)) (sym (and_half a m))
      (mask_mask k (a / 2) (m / 2) (omega arith)),
)

-- Bits or-ed in outside the mask do not show under it.
pub mask-or_outside :
    (k a m c x : ℕ) → c + m ≡ ones k → bit_and (bit_or a (bit_and c x)) m ≡ bit_and a m
mask-or_outside zero a m c x h =
    let m0 : m ≡ 0 = omega arith in
    rw m0 (rw (bit_and-zero (bit_or a (bit_and c x)), bit_and-zero a) refl)
mask-or_outside (suc k) a m c x h = omega (
  arith,
  and_low (bit_or a (bit_and c x)) m,
  and_low a m,
  or_digit a (bit_and c x),
  and_digit c x,
  subst (λ (t : ℕ). bit_and t (m / 2) ≡ bit_and (a / 2) (m / 2)) (sym (halves a c x))
      (mask-or_outside k (a / 2) (m / 2) (c / 2) (x / 2) (omega arith)),
)
  where
    halves : (a c x : ℕ) → bit_or a (bit_and c x) / 2 ≡ bit_or (a / 2) (bit_and (c / 2) (x / 2))
    halves a c x = or_half a (bit_and c x) ∙ ap (bit_or (a / 2)) (and_half c x)
