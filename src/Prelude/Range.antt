-- ===== src/Prelude/Range.antt =====
-- Checks of a test at every number below a bound, by evaluation.
use Prim.Native.Nat.{ℕ, zero, suc, ◌<◌}
use mathlib.Core.Path.{◌≡◌}
use mathlib.Core.Bool.{Bool, true, false, not, ◌&&◌}
use native.Mathlib.Omega.{arith}

unfoldable pub all_below : ℕ → (ℕ → Bool) → Bool
all_below zero p = true
all_below (suc n) p = p n && all_below n p

pub all_below_sound : (n : ℕ) (p : ℕ → Bool) (k : ℕ) → all_below n p ≡ true → k < n → p k ≡ true
unfolding all_below
all_below_sound zero p k h l = absurd (omega arith)
all_below_sound (suc n) p k h l = ground (arith, all_below_sound n p k)

-- Whether two tests agree.
abbrev pub agree : Bool → Bool → Bool
agree true b = b
agree false b = not b

pub eq_of_agree : (a b : Bool) → agree a b ≡ true → a ≡ b
eq_of_agree a b h = ground arith
