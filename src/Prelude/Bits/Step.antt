-- ===== src/Prelude/Bits/Step.antt =====
-- The native bit operations by their lowest digit. They stand for a recursion on binary digits
-- with fuel, which is dropped here.
use Prim.Native.Nat.{
  ℕ, zero, suc, ◌+◌, ◌*◌, ◌/◌, ◌%◌, ◌≤◌, min, max, digits, bitwise, bit_and, bit_or,
  bit_and-bitwise, bit_or-bitwise,
}
use mathlib.Core.Path.{◌≡◌, refl}
use native.Mathlib.Nat.{le_refl}
use native.Mathlib.Omega.{arith}

module _ (base : ℕ → ℕ) (op : ℕ → ℕ → ℕ) where
  digits-enough : (f g a b : ℕ) → a ≤ f → a ≤ g → digits base op f a b ≡ digits base op g a b
  digits-enough zero zero a b p q = refl
  digits-enough zero (suc g) zero b p q = refl
  digits-enough zero (suc g) (suc a) b p q = absurd (omega arith)
  digits-enough (suc f) zero zero b p q = refl
  digits-enough (suc f) zero (suc a) b p q = absurd (omega arith)
  digits-enough (suc f) (suc g) zero b p q = refl
  digits-enough (suc f) (suc g) (suc a) b p q =
      rw (digits-enough f g (suc a / 2) (b / 2) (omega arith) (omega arith))

  bitwise-step :
      (a b : ℕ)
      → bitwise base op (suc a) b ≡ bitwise base op (suc a / 2) (b / 2) * 2 + op (suc a % 2) (b % 2)
  bitwise-step a b =
      omega (arith, digits-enough a (suc a / 2) (suc a / 2) (b / 2) (omega arith) (le_refl _))

pub bit_and-step : (a b : ℕ) → bit_and a b ≡ bit_and (a / 2) (b / 2) * 2 + min (a % 2) (b % 2)
bit_and-step zero b = simp bit_and-bitwise (omega arith)
bit_and-step (suc a) b = simp bit_and-bitwise (bitwise-step (λ _. 0) min a b)

pub bit_or-step : (a b : ℕ) → bit_or a b ≡ bit_or (a / 2) (b / 2) * 2 + max (a % 2) (b % 2)
bit_or-step zero b = simp bit_or-bitwise (omega arith)
bit_or-step (suc a) b = simp bit_or-bitwise (bitwise-step (λ y. y) max a b)

pub zero-bit_and : (b : ℕ) → bit_and 0 b ≡ 0
zero-bit_and b = bit_and-bitwise 0 b
