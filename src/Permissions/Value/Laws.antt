-- ===== src/Permissions/Value/Laws.antt =====
-- The operations of `PermissionValue` flag by flag, and what its checks decide.
use company_backend.Prelude.{
  ℕ, ◌^◌, ◌<◌, bit_and, ◌≡◌, ◌∙◌, ap, ◌↔◌, Bool, true, not, ◌&&◌, ◌||◌, Option, none, some, ==_iff,
  arith,
}
use company_backend.Prelude.Bits.{
  test_bit, test_bit-bit_and, test_bit-bit_or, test_bit-complement, eq_of_bits, bit_and-lt,
  bit_or-lt,
}
use company_backend.Permissions.Override.{Override, IsU64}
use company_backend.Permissions.Value.{
  complement, allow, revoke, apply, restrict, has, throw_permission_override,
}
use company_backend.Result.{ok}

pub test_bit-revoke :
    (p v k : ℕ)
    → k < 64
    → v < 2 ^ 64
    → test_bit (revoke p v) k ≡ (test_bit p k && not (test_bit v k))
unfolding revoke
test_bit-revoke p v k h f = rw (test_bit-bit_and k p (complement v), test_bit-complement 64 k v h f)

pub test_bit-allow : (p v k : ℕ) → test_bit (allow p v) k ≡ (test_bit p k || test_bit v k)
unfolding allow
test_bit-allow p v k = test_bit-bit_or k p v

pub test_bit-restrict : (p v k : ℕ) → test_bit (restrict p v) k ≡ (test_bit p k && test_bit v k)
unfolding restrict
test_bit-restrict p v k = test_bit-bit_and k p v

-- What an override says of one flag: a denial wins over a grant.
abbrev pub decide : Override → ℕ → Bool → Bool
decide o k before = (before || test_bit o.allow k) && not (test_bit o.deny k)

pub test_bit-apply :
    (p : ℕ) (o : Override) (k : ℕ)
    → k < 64
    → IsU64 o
    → test_bit (apply p o) k ≡ decide o k (test_bit p k)
unfolding apply
test_bit-apply p o k h f =
    rw (test_bit-revoke (allow p o.allow) o.deny k h f.1, test_bit-allow p o.allow k)

pub revoke-lt : (p v : ℕ) → p < 2 ^ 64 → revoke p v < 2 ^ 64
unfolding revoke
revoke-lt p v h = bit_and-lt 64 p (complement v) h

pub restrict-lt : (p v : ℕ) → p < 2 ^ 64 → restrict p v < 2 ^ 64
unfolding restrict
restrict-lt p v h = bit_and-lt 64 p v h

pub apply-lt : (p : ℕ) (o : Override) → p < 2 ^ 64 → IsU64 o → apply p o < 2 ^ 64
unfolding apply allow
apply-lt p o h f = revoke-lt (allow p o.allow) o.deny (bit_or-lt 64 p o.allow h f.0)

-- `v` is contained in `p`, flag by flag.
abbrev pub Includes : ℕ → ℕ → Type 0
Includes p v = (k : ℕ) → k < 64 → test_bit v k ≡ true → test_bit p k ≡ true

has_sound : (p v : ℕ) → has p v ≡ true → Includes p v
unfolding has
has_sound p v h k l b =
    ground
      (arith, ap (λ (t : ℕ). test_bit t k) ((==_iff (bit_and p v) v).0 h), test_bit-bit_and k p v)

and_absorb : (a b : Bool) → (b ≡ true → a ≡ true) → (a && b) ≡ b
and_absorb a b h = ground arith

has_complete : (p v : ℕ) → v < 2 ^ 64 → p < 2 ^ 64 → Includes p v → has p v ≡ true
unfolding has
has_complete p v f g h = (==_iff (bit_and p v) v).1 (
    eq_of_bits 64 (bit_and p v) v (bit_and-lt 64 p v g) f
      (λ k l. test_bit-bit_and k p v ∙ and_absorb (test_bit p k) (test_bit v k) (h k l)))

-- `has` decides inclusion of flag sets.
pub has_iff : (p v : ℕ) → p < 2 ^ 64 → v < 2 ^ 64 → (has p v ≡ true) ↔ Includes p v
has_iff p v g f = (has_sound p v, has_complete p v f g)

-- `current` to `next` grants flag `k` anew, or lifts its denial.
abbrev pub widens : Option Override → Override → ℕ → Bool
widens none next k = test_bit next.allow k
widens (some current) next k =
    (not (test_bit current.allow k) && test_bit next.allow k)
    || (test_bit current.deny k && not (test_bit next.deny k))

abbrev pub IsU64? : Option Override → Type 0
IsU64? none = Unit
IsU64? (some o) = IsU64 o

complement-lt : (v : ℕ) → complement v < 2 ^ 64
complement-lt v = omega arith

-- The two sets that the check asks for, flag by flag.
module _ (current next : Override) (valid : IsU64 current × IsU64 next) (k : ℕ) (l : k < 64) where
  granted_bit :
      test_bit (bit_and (complement current.allow) next.allow) k
      ≡ (not (test_bit current.allow k) && test_bit next.allow k)
  granted_bit =
      rw (test_bit-bit_and k (complement current.allow) next.allow)
        (rw (test_bit-complement 64 k current.allow l valid.0.0))

  lifted_bit :
      test_bit (bit_and current.deny (complement next.deny)) k
      ≡ (test_bit current.deny k && not (test_bit next.deny k))
  lifted_bit =
      rw (test_bit-bit_and k current.deny (complement next.deny))
        (rw (test_bit-complement 64 k next.deny l valid.1.1))

both_has :
    (p : ℕ) (current next : Override)
    → throw_permission_override p (some current) next ≡ ok tt
    → (has p (bit_and (complement current.allow) next.allow) ≡ true)
      × (has p (bit_and current.deny (complement next.deny)) ≡ true)
unfolding throw_permission_override
both_has p current next h = ground arith

has_both :
    (p : ℕ) (current next : Override)
    → has p (bit_and (complement current.allow) next.allow) ≡ true
    → has p (bit_and current.deny (complement next.deny)) ≡ true
    → throw_permission_override p (some current) next ≡ ok tt
unfolding throw_permission_override
has_both p current next h g = ground arith

replace_sound :
    (p : ℕ) (current next : Override)
    → IsU64 current × IsU64 next
    → throw_permission_override p (some current) next ≡ ok tt
    → (k : ℕ) → k < 64
    → widens (some current) next k ≡ true
    → test_bit p k ≡ true
replace_sound p current next valid h k l w = ground (
  arith,
  granted_bit current next valid k l,
  lifted_bit current next valid k l,
  has_sound p _ (both_has p current next h).0 k l,
  has_sound p _ (both_has p current next h).1 k l,
)

replace_complete :
    (p : ℕ) (current next : Override)
    → p < 2 ^ 64
    → IsU64 current × IsU64 next
    → ((k : ℕ) → k < 64 → widens (some current) next k ≡ true → test_bit p k ≡ true)
    → throw_permission_override p (some current) next ≡ ok tt
replace_complete p current next f valid h =
    has_both p current next
      (has_complete p _ (bit_and-lt 64 _ _ (complement-lt current.allow)) f
        (λ k l b. ground (arith, granted_bit current next valid k l, h k l)))
      (has_complete p _ (bit_and-lt 64 _ _ valid.0.1) f
        (λ k l b. ground (arith, lifted_bit current next valid k l, h k l)))

add_sound :
    (p : ℕ) (next : Override)
    → throw_permission_override p none next ≡ ok tt
    → has p next.allow ≡ true
unfolding throw_permission_override
add_sound p next h = ground arith

add_complete :
    (p : ℕ) (next : Override)
    → has p next.allow ≡ true
    → throw_permission_override p none next ≡ ok tt
unfolding throw_permission_override
add_complete p next h = ground arith

-- For u64 values, `throw_permission_override` succeeds exactly when the caller holds every flag
-- that the change from the current override, or from none, to the next one widens: a grant added,
-- or a denial lifted.
pub throw_permission_override_iff :
    (p : ℕ) (current : Option Override) (next : Override)
    → p < 2 ^ 64
    → IsU64? current
    → IsU64 next
    → (throw_permission_override p current next ≡ ok tt)
      ↔ ((k : ℕ) → k < 64 → widens current next k ≡ true → test_bit p k ≡ true)
throw_permission_override_iff p (some current) next f c n =
    (replace_sound p current next (c, n), replace_complete p current next f (c, n))
throw_permission_override_iff p none next f c n = (
  λ h. has_sound p next.allow (add_sound p next h),
  λ h. add_complete p next (has_complete p next.allow n.0 f h),
)
