-- ===== src/Prelude/Bits.antt =====
-- Sets of flags: the bits of a number, the set operations bit by bit, and equality by bits.
mod Step
use Step.{bit_and-step, bit_or-step, zero-bit_and}
use Prim.Native.Nat.{ℕ, zero, suc, ◌+◌, ◌-◌, ◌*◌, ◌/◌, ◌%◌, ◌^◌, ◌≤◌, ◌<◌, bit_and, bit_or}
use mathlib.Core.Path.{◌≡◌, refl}
use mathlib.Core.Logic.{◌↔◌}
use mathlib.Core.Bool.{Bool, true, false, not, ◌&&◌, ◌||◌}
use native.Mathlib.Nat.{pow-suc, one-le-pow}
use native.Mathlib.Omega.{arith}
use company_backend.Prelude.Tests.{◌==◌, ==_iff}

-- Whether bit `k` of `v` is set.
unfoldable pub test_bit : ℕ → ℕ → Bool
test_bit v zero = v % 2 == 1
test_bit v (suc k) = test_bit (v / 2) k

pub test_bit-bit_and : (k a b : ℕ) → test_bit (bit_and a b) k ≡ (test_bit a k && test_bit b k)
unfolding test_bit
test_bit-bit_and zero a b = ground (arith, bit_and-step a b)
test_bit-bit_and (suc k) a b = rw (half a b) (test_bit-bit_and k (a / 2) (b / 2))
  where
    half : (a b : ℕ) → bit_and a b / 2 ≡ bit_and (a / 2) (b / 2)
    half a b = omega (arith, bit_and-step a b)

pub test_bit-bit_or : (k a b : ℕ) → test_bit (bit_or a b) k ≡ (test_bit a k || test_bit b k)
unfolding test_bit
test_bit-bit_or zero a b = ground (arith, bit_or-step a b)
test_bit-bit_or (suc k) a b = rw (half a b) (test_bit-bit_or k (a / 2) (b / 2))
  where
    half : (a b : ℕ) → bit_or a b / 2 ≡ bit_or (a / 2) (b / 2)
    half a b = omega (arith, bit_or-step a b)

pub test_bit-zero : (k : ℕ) → test_bit 0 k ≡ false
unfolding test_bit
test_bit-zero zero = refl
test_bit-zero (suc k) = test_bit-zero k

-- The complement at width `w` flips the bits below `w`.
pub test_bit-complement :
    (w k v : ℕ) → k < w → v < 2 ^ w → test_bit (2 ^ w - 1 - v) k ≡ not (test_bit v k)
unfolding test_bit
test_bit-complement zero k v h f = absurd (omega arith)
test_bit-complement (suc w) zero v h f = ground (arith, pow-suc 2 w, one-le-pow w 2)
test_bit-complement (suc w) (suc k) v h f =
    rw half (test_bit-complement w k (v / 2) (omega arith) (omega (arith, pow-suc 2 w)))
  where
    half : (2 ^ suc w - 1 - v) / 2 ≡ 2 ^ w - 1 - v / 2
    half = omega (arith, pow-suc 2 w, one-le-pow w 2)

-- Numbers of width `w` with the same bits are equal.
pub eq_of_bits :
    (w a b : ℕ) → a < 2 ^ w → b < 2 ^ w → ((k : ℕ) → k < w → test_bit a k ≡ test_bit b k) → a ≡ b
unfolding test_bit
eq_of_bits zero a b p q h = omega arith
eq_of_bits (suc w) a b p q h = ground (
  arith,
  h 0 (omega arith),
  eq_of_bits w (a / 2) (b / 2) (omega (arith, pow-suc 2 w)) (omega (arith, pow-suc 2 w))
      (λ k l. h (suc k) (omega arith)),
)

pub bit_and-lt : (w a b : ℕ) → a < 2 ^ w → bit_and a b < 2 ^ w
bit_and-lt zero zero b h = omega (arith, zero-bit_and b)
bit_and-lt zero (suc a) b h = absurd (omega arith)
bit_and-lt (suc w) a b h = omega (
  arith,
  bit_and-step a b,
  pow-suc 2 w,
  bit_and-lt w (a / 2) (b / 2) (omega (arith, pow-suc 2 w)),
)

pub bit_or-lt : (w a b : ℕ) → a < 2 ^ w → b < 2 ^ w → bit_or a b < 2 ^ w
bit_or-lt zero zero zero h g = omega arith
bit_or-lt zero (suc a) b h g = absurd (omega arith)
bit_or-lt zero zero (suc b) h g = absurd (omega arith)
bit_or-lt (suc w) a b h g = omega (
  arith,
  bit_or-step a b,
  pow-suc 2 w,
  bit_or-lt w (a / 2) (b / 2) (omega (arith, pow-suc 2 w)) (omega (arith, pow-suc 2 w)),
)
