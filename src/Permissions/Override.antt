-- ===== src/Permissions/Override.antt =====
-- crates/core/permissions/src/models/server.rs: overrides, in memory and in the database.
use company_backend.Prelude.{ℕ, ◌^◌, ◌<◌, ◌≡◌}
use company_backend.Prelude.Int.{
  ℤ, as_u64, as_i64, IsI64, as_u64-as_i64, as_i64-as_u64, as_i64-IsI64, as_u64-lt,
}

pub record Override : Type 0 where
  pub allow : ℕ
  pub deny : ℕ

-- `Override::default()`
abbrev pub default : Override
default = record { allow = 0; deny = 0 }

-- `Override::allows`
abbrev pub allows : Override → ℕ
allows o = o.allow

-- `Override::denies`
abbrev pub denies : Override → ℕ
denies o = o.deny

pub record OverrideField : Type 0 where
  pub a : ℤ
  pub d : ℤ

-- `OverrideField::default()`
abbrev pub default_field : OverrideField
default_field = record { a = ℤ.pos 0; d = ℤ.pos 0 }

-- `OverrideField::from(v)`
unfoldable pub to_field : Override → OverrideField
to_field v = record { a = as_i64 v.allow; d = as_i64 v.deny }

-- `Override::from(v)`
unfoldable pub from_field : OverrideField → Override
from_field v = record { allow = as_u64 v.a; deny = as_u64 v.d }

-- Both sets are u64 values.
abbrev pub IsU64 : Override → Type 0
IsU64 o = (o.allow < 2 ^ 64) × (o.deny < 2 ^ 64)

abbrev pub IsField : OverrideField → Type 0
IsField v = IsI64 v.a × IsI64 v.d

pub from_field-IsU64 : (v : OverrideField) → IsField v → IsU64 (from_field v)
unfolding from_field
from_field-IsU64 v h = (as_u64-lt v.a h.0, as_u64-lt v.d h.1)

-- The conversions between a u64 override and its i64 database form are inverse to one another, in
-- both directions, and keep the ranges.
pub IsField-roundtrip :
    (o : Override) (v : OverrideField)
    → IsU64 o
    → IsField v
    → IsField (to_field o)
      × (from_field (to_field o) ≡ o)
      × IsU64 (from_field v)
      × (to_field (from_field v) ≡ v)
unfolding to_field from_field
IsField-roundtrip o v h f = (
  (as_i64-IsI64 o.allow h.0, as_i64-IsI64 o.deny h.1),
  (λ i. record { allow = as_u64-as_i64 o.allow h.0 i; deny = as_u64-as_i64 o.deny h.1 i }),
  (as_u64-lt v.a f.0, as_u64-lt v.d f.1),
  (λ i. record { a = as_i64-as_u64 v.a f.0 i; d = as_i64-as_u64 v.d f.1 i }),
)
