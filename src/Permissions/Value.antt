-- ===== src/Permissions/Value.antt =====
-- `PermissionValue` of crates/core/permissions/src/models/mod.rs: a u64 as a set of flags.
pub mod Laws
use company_backend.Prelude.{
  ℕ, ◌-◌, ◌^◌, bit_and, bit_or, Bool, not, ◌||◌, Option, none, some, ◌==◌, if◌then◌else◌,
}
use company_backend.Result.{Error, Result, Done, ok, err}
use company_backend.Permissions.Flags.{UserPermission, user_bits, ChannelPermission, bits}
use company_backend.Permissions.Override.{Override, allows, denies}

abbrev pub PermissionValue : Type 0
PermissionValue = ℕ

-- `!v` of a u64.
abbrev pub complement : ℕ → ℕ
complement v = 2 ^ 64 - 1 - v

-- `PermissionValue::allow`
unfoldable pub allow : PermissionValue → ℕ → PermissionValue
allow p v = bit_or p v

-- `PermissionValue::revoke`
unfoldable pub revoke : PermissionValue → ℕ → PermissionValue
revoke p v = bit_and p (complement v)

-- `PermissionValue::apply`
unfoldable pub apply : PermissionValue → Override → PermissionValue
apply p v = revoke (allow p v.allow) v.deny

-- `PermissionValue::revoke_all`
unfoldable pub revoke_all : PermissionValue → PermissionValue
revoke_all p = 0

-- `PermissionValue::restrict`
unfoldable pub restrict : PermissionValue → ℕ → PermissionValue
restrict p v = bit_and p v

-- `PermissionValue::has`
unfoldable pub has : PermissionValue → ℕ → Bool
has p v = bit_and p v == v

-- `PermissionValue::has_user_permission`
abbrev pub has_user_permission : PermissionValue → UserPermission → Bool
has_user_permission p u = has p (user_bits u)

-- `PermissionValue::has_channel_permission`
abbrev pub has_channel_permission : PermissionValue → ChannelPermission → Bool
has_channel_permission p c = has p (bits c)

-- `PermissionValue::throw_if_lacking_user_permission`
unfoldable pub throw_if_lacking_user_permission : PermissionValue → UserPermission → Result Done
throw_if_lacking_user_permission p u =
    if has_user_permission p u then ok tt else err (Error.missing_user_permission u)

-- `PermissionValue::throw_if_lacking_channel_permission`
unfoldable pub throw_if_lacking_channel_permission :
    PermissionValue → ChannelPermission → Result Done
throw_if_lacking_channel_permission p c =
    if has_channel_permission p c then ok tt else err (Error.missing_permission c)

-- `PermissionValue::throw_permission_override`
unfoldable pub throw_permission_override :
    PermissionValue → Option Override → Override → Result Done
throw_permission_override p (some current) next =
    if not (has p (bit_and (complement (allows current)) (allows next)))
      || not (has p (bit_and (denies current) (complement (denies next))))
    then err Error.cannot_give_missing_permissions
    else ok tt
throw_permission_override p none next =
    if not (has p (allows next)) then err Error.cannot_give_missing_permissions else ok tt
