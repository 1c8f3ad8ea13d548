-- ===== src/Permissions/FlagBits.antt =====
-- The bits of the flag sets that the calculators put in and take out.
use company_backend.Prelude.{
  ℕ, ◌^◌, ◌<◌, ◌≡◌, refl, ◌∙◌, Bool, true, ◌||◌, ◌==◌, ==_refl, ltb, Bool-cases, inl, inr, arith,
}
use company_backend.Permissions.Value.{has}
use company_backend.Permissions.Value.Laws.{Includes, has_iff}
use company_backend.Prelude.Bits.{test_bit}
use company_backend.Prelude.Range.{all_below, all_below_sound, agree, eq_of_agree}
use company_backend.Permissions.Flags.{ChannelPermission, bits, allow_in_timeout}

-- A set is described by a test of the flags' numbers.
by_table :
    (v : ℕ) (test : ℕ → Bool)
    → all_below 64 (λ k. agree (test_bit v k) (test k)) ≡ true
    → (k : ℕ) → k < 64
    → test_bit v k ≡ test k
by_table v test h k l =
    eq_of_agree (test_bit v k) (test k)
      (all_below_sound 64 (λ k. agree (test_bit v k) (test k)) k h l)

pub test_bit-speak : (k : ℕ) → k < 64 → test_bit (bits ChannelPermission.speak) k ≡ (k == 31)
unfolding test_bit all_below
test_bit-speak = by_table (bits ChannelPermission.speak) (λ k. k == 31) refl

pub test_bit-video : (k : ℕ) → k < 64 → test_bit (bits ChannelPermission.video) k ≡ (k == 32)
unfolding test_bit all_below
test_bit-video = by_table (bits ChannelPermission.video) (λ k. k == 32) refl

pub test_bit-listen : (k : ℕ) → k < 64 → test_bit (bits ChannelPermission.listen) k ≡ (k == 36)
unfolding test_bit all_below
test_bit-listen = by_table (bits ChannelPermission.listen) (λ k. k == 36) refl

pub test_bit-view_channel :
    (k : ℕ) → k < 64 → test_bit (bits ChannelPermission.view_channel) k ≡ (k == 20)
unfolding test_bit all_below
test_bit-view_channel = by_table (bits ChannelPermission.view_channel) (λ k. k == 20) refl

pub test_bit-allow_in_timeout :
    (k : ℕ) → k < 64 → test_bit allow_in_timeout k ≡ (k == 20 || k == 21)
unfolding test_bit all_below
test_bit-allow_in_timeout = by_table allow_in_timeout (λ k. k == 20 || k == 21) refl

pub test_bit-grant_all_safe :
    (k : ℕ) → k < 64 → test_bit (bits ChannelPermission.grant_all_safe) k ≡ ltb k 52
unfolding test_bit all_below
test_bit-grant_all_safe = by_table (bits ChannelPermission.grant_all_safe) (λ k. ltb k 52) refl

single_included :
    (p v j : ℕ) → ((k : ℕ) → k < 64 → test_bit v k ≡ (k == j)) → test_bit p j ≡ true → Includes p v
single_included p v j only h k l b = rw (eq_of_test k j (rw (only k l) at b)) h
  where
    eq_of_test : (a b : ℕ) → (a == b) ≡ true → a ≡ b
    eq_of_test a b e = ground arith

-- A check for a set of one flag looks at that flag.
pub has-single :
    (p v j : ℕ)
    → p < 2 ^ 64
    → v < 2 ^ 64
    → j < 64
    → ((k : ℕ) → k < 64 → test_bit v k ≡ (k == j))
    → has p v ≡ test_bit p j
has-single p v j f g l only = elim (Bool-cases (test_bit p j)) [
  | inl held ↦ rw held ((has_iff p v f g).1 (single_included p v j only held))
  | inr lacking ↦ elim (Bool-cases (has p v)) [
    | inl yes_has ↦ cc ((has_iff p v f g).0 yes_has j l (only j l ∙ ==_refl j))
    | inr no_has ↦ rw (no_has, lacking)
  ]
]

pub has-view_channel :
    (p : ℕ) → p < 2 ^ 64 → has p (bits ChannelPermission.view_channel) ≡ test_bit p 20
has-view_channel p f =
    has-single p (bits ChannelPermission.view_channel) 20 f (omega arith) (omega arith)
      test_bit-view_channel

-- The set of one flag, for any flag number.
pub test_bit-single : (j k : ℕ) → j < 64 → k < 64 → test_bit (2 ^ j) k ≡ (k == j)
unfolding test_bit all_below
test_bit-single j k m l = eq_of_agree (test_bit (2 ^ j) k) (k == j) (
    all_below_sound 64 (λ i. agree (test_bit (2 ^ j) i) (i == j)) k
      (all_below_sound 64 (λ n. all_below 64 (λ i. agree (test_bit (2 ^ n) i) (i == n))) j refl m)
      l)
