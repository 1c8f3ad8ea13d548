-- ===== src/Tests/Permissions.antt =====
-- Overrides and sets of flags on concrete values.
use company_backend.Prelude.{ℕ, ◌^◌, ◌<◌, ◌≡◌, ◌↔◌, true, some, [], ◌∷◌, arith}
use company_backend.Prelude.Int.{ℤ}
use company_backend.Prelude.Bits.{test_bit}
use company_backend.Prelude.HashMap.{HashMap, get}
use company_backend.Result.{ok}
use company_backend.Permissions.Override.{
  Override, OverrideField, to_field, from_field, IsU64, IsField, IsField-roundtrip,
}
use company_backend.Permissions.Value.{throw_permission_override}
use company_backend.Permissions.Value.Laws.{throw_permission_override_iff, widens}
use company_backend.Permissions.Calculate.{apply_all}
use company_backend.Permissions.Verdict.{verdict, or_default, apply_all-verdict}
use company_backend.Ratelimits.{Entry, entry_from, request}
use company_backend.Ratelimits.Laws.{Reports, request_exact}

abbrev grant_top : Override
grant_top = record { allow = 2 ^ 63; deny = 1 }

abbrev deny_message : Override
deny_message = record { allow = 2 ^ 20; deny = 2 ^ 22 }

abbrev stored_field : OverrideField
stored_field = record { a = ℤ.negsuc 0; d = ℤ.pos 3 }

abbrev grant_top-IsU64 : IsU64 grant_top
grant_top-IsU64 = (omega arith, omega arith)

abbrev deny_message-IsU64 : IsU64 deny_message
deny_message-IsU64 = (omega arith, omega arith)

IsField-roundtrip_example :
    IsField (to_field grant_top)
    × (from_field (to_field grant_top) ≡ grant_top)
    × IsU64 (from_field stored_field)
    × (to_field (from_field stored_field) ≡ stored_field)
IsField-roundtrip_example =
    IsField-roundtrip grant_top stored_field grant_top-IsU64 (omega arith, omega arith)

throw_permission_override_iff_example :
    (throw_permission_override (2 ^ 22) (some deny_message) grant_top ≡ ok tt) ↔ (
      (k : ℕ) → k < 64 → widens (some deny_message) grant_top k ≡ true → test_bit (2 ^ 22) k ≡ true)
throw_permission_override_iff_example =
    throw_permission_override_iff (2 ^ 22) (some deny_message) grant_top (omega arith)
      deny_message-IsU64 grant_top-IsU64

apply_all-verdict_example :
    test_bit (apply_all (2 ^ 22) (grant_top ∷ deny_message ∷ [])) 22
    ≡ or_default (verdict (grant_top ∷ deny_message ∷ []) 22) (test_bit (2 ^ 22) 22)
apply_all-verdict_example =
    apply_all-verdict (2 ^ 22) (grant_top ∷ deny_message ∷ []) 22 (omega arith)
      (grant_top-IsU64, (deny_message-IsU64, tt))

abbrev buckets : HashMap Entry
buckets = (7, record { used = 3; reset = 9_000 }) ∷ []

request_exact_example :
    Reports 5_000 buckets 7 5 (entry_from 5_000 buckets 7) (request 5_000 buckets 7 5)
unfolding entry_from get
request_exact_example = request_exact 5_000 buckets 7 5 (omega arith, omega arith)
