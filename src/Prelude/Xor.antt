-- ===== src/Prelude/Xor.antt =====
-- Exclusive or of numbers: the same number twice cancels.
use Prim.Native.Nat.{ℕ, zero, suc, ◌+◌, ◌*◌, ◌/◌, ◌%◌, ◌≤◌, ◌<◌, bit_xor, differ, bit_xor-bitwise}
use mathlib.Core.Path.{◌≡◌, refl, sym, subst}
use native.Mathlib.Omega.{arith}
use addressroutinggateway.Prelude.Bits.{digits_enough}

differ-digits : (a b : ℕ) → a < 2 → b < 2 → differ a b ≡ (a + b) % 2
differ-digits zero b p q = omega arith
differ-digits (suc zero) zero p q = refl
differ-digits (suc zero) (suc zero) p q = refl
differ-digits (suc zero) (suc (suc b)) p q = absurd (omega arith)
differ-digits (suc (suc a)) b p q = absurd (omega arith)

xor_low : (a b : ℕ) → bit_xor a b ≡ bit_xor (a / 2) (b / 2) * 2 + (a % 2 + b % 2) % 2
xor_low zero b = omega (arith, bit_xor-bitwise 0 b, bit_xor-bitwise 0 (b / 2))
xor_low (suc a) b = omega (
  arith,
  bit_xor-bitwise (suc a) b,
  bit_xor-bitwise (suc a / 2) (b / 2),
  differ-digits (suc a % 2) (b % 2) (omega arith) (omega arith),
  digits_enough (λ y. y) differ a (suc a / 2) (suc a / 2) (b / 2) (omega arith) (omega arith),
)

xor_half : (a b : ℕ) → bit_xor a b / 2 ≡ bit_xor (a / 2) (b / 2)
xor_half a b = omega (arith, xor_low a b)

cancel_below : (n a s : ℕ) → a ≤ n → s ≤ n → bit_xor (bit_xor a s) s ≡ a
cancel_below zero zero zero p q = refl
cancel_below zero zero (suc s) p q = absurd (omega arith)
cancel_below zero (suc a) s p q = absurd (omega arith)
cancel_below (suc n) a s p q = omega (
  arith,
  xor_low (bit_xor a s) s,
  xor_low a s,
  subst (λ (t : ℕ). bit_xor t (s / 2) ≡ a / 2) (sym (xor_half a s))
      (cancel_below n (a / 2) (s / 2) (omega arith) (omega arith)),
)

pub bit_xor-cancel : (a s : ℕ) → bit_xor (bit_xor a s) s ≡ a
bit_xor-cancel a s = cancel_below (a + s) a s (omega arith) (omega arith)
