-- ===== src/Result.antt =====
-- crates/core/result: `Result`, with the error types that the modelled code returns.
use company_backend.Prelude.{ℕ}
use company_backend.Permissions.Flags.{UserPermission, ChannelPermission}

-- `ErrorType`. `MissingPermission` holds the name of a flag: here, the flag.
pub data Error : Type 0 where
  missing_permission : ChannelPermission → Error
  missing_user_permission : UserPermission → Error
  cannot_give_missing_permissions : Error
  not_found internal_error database_error : Error
  no_effect already_friends already_sent_request blocked blocked_by_other : Error
  not_elevated invalid_role invalid_operation cannot_timeout_yourself is_elevated : Error
  cannot_remove_yourself unknown_channel not_connected live_kit_unavailable : Error
  failed_validation : Error
  too_many_roles : ℕ → Error
  too_many_pending_friend_requests : ℕ → Error

pub data Result {ℓ} (A : Type ℓ) : Type ℓ where
  ok : A → Result A
  err : Error → Result A

-- `()`
abbrev pub Done : Type 0
Done = Unit

infixl 5 ◌>>=◌ ◌>>◌
abbrev pub ◌>>=◌ {ℓ κ} : {A : Type ℓ} {B : Type κ} → Result A → (A → Result B) → Result B
ok a >>= f = f a
err e >>= f = err e

abbrev pub ◌>>◌ {ℓ} : {B : Type ℓ} → Result Done → Result B → Result B
m >> k = m >>= λ _. k

abbrev pub IsOk {ℓ} : {A : Type ℓ} → Result A → Type 0
IsOk (ok _) = Unit
IsOk (err _) = ⊥
