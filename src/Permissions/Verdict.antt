-- ===== src/Permissions/Verdict.antt =====
-- What a list of overrides says of one flag: the last override that mentions the flag decides, and
-- a denial beats a grant in one override.
use company_backend.Prelude.{
  ℕ, ◌^◌, ◌<◌, ◌≡◌, refl, Bool, true, false, Option, none, some, List, [], ◌∷◌, All, arith,
  if◌then◌else◌,
}
use company_backend.Prelude.Bits.{test_bit}
use company_backend.Permissions.Override.{Override, IsU64}
use company_backend.Permissions.Value.{apply}
use company_backend.Permissions.Value.Laws.{test_bit-apply, apply-lt}
use company_backend.Permissions.Calculate.{apply_all}

-- The word of one override on a flag, if it mentions it.
abbrev pub word : Override → ℕ → Option Bool
word o k = if test_bit o.deny k then some false else if test_bit o.allow k then some true else none

-- The word of the last override that mentions the flag.
unfoldable pub verdict : List Override → ℕ → Option Bool
verdict [] k = none
verdict (o ∷ os) k = elim (verdict os k) [ some b ↦ some b | none ↦ word o k ]

abbrev pub or_default : Option Bool → Bool → Bool
or_default none d = d
or_default (some b) d = b

pub apply_all-lt :
    (v : ℕ) (os : List Override) → v < 2 ^ 64 → All IsU64 os → apply_all v os < 2 ^ 64
unfolding apply_all
apply_all-lt v [] h f = h
apply_all-lt v (o ∷ os) h f = apply_all-lt (apply v o) os (apply-lt v o h f.0) f.1

-- Applying a list of overrides leaves a flag as the last override that mentions it says, and
-- untouched if none does.
pub apply_all-verdict :
    (v : ℕ) (os : List Override) (k : ℕ)
    → k < 64
    → All IsU64 os
    → test_bit (apply_all v os) k ≡ or_default (verdict os k) (test_bit v k)
unfolding apply_all verdict
apply_all-verdict v [] k l f = refl
apply_all-verdict v (o ∷ os) k l f =
    ground (arith, apply_all-verdict (apply v o) os k l f.1, test_bit-apply v o k l f.0)
