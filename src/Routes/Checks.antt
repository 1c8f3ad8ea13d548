-- ===== src/Routes/Checks.antt =====
-- The checks of member_edit.rs (crates/delta/src/routes/servers) that look at permissions and ranks.
pub mod Meaning
pub mod Passing
use company_backend.Prelude.{
  ℕ, Ident, Bool, false, not, ◌&&◌, ◌||◌, Option, none, some, List, [], ◌∷◌, contains, filter, ◌==◌,
  if◌then◌else◌,
}
use company_backend.Prelude.HashMap
use company_backend.Prelude.HashMap.{HashMap}
use company_backend.Prelude.Int.{ℤ, leb_ℤ}
use company_backend.Models.{Role}
use company_backend.Permissions.Flags.{ChannelPermission}
use company_backend.Permissions.Value.{
  PermissionValue, has_channel_permission, throw_if_lacking_channel_permission,
}
use company_backend.DatabaseQuery.State.{is_some}
use company_backend.Result.{Error, Result, ok, err, Done, ◌>>=◌, ◌>>◌}

pub data FieldsMember : Type 0 where
  nickname avatar roles timeout can_receive can_publish joined_at voice_channel : FieldsMember

abbrev field_number : FieldsMember → ℕ
field_number FieldsMember.nickname = 0
field_number FieldsMember.avatar = 1
field_number FieldsMember.roles = 2
field_number FieldsMember.timeout = 3
field_number FieldsMember.can_receive = 4
field_number FieldsMember.can_publish = 5
field_number FieldsMember.joined_at = 6
field_number FieldsMember.voice_channel = 7

-- `remove.contains(&field)`
abbrev pub removes : List FieldsMember → FieldsMember → Bool
removes [] field = false
removes (f ∷ fs) field = field_number f == field_number field || removes fs field

-- `is_valid` is what `validate` answers.
pub record DataMemberEdit : Type 0 where
  pub nickname : Option ℕ
  pub avatar : Option Ident
  pub roles : Option (List Ident)
  pub timeout : Option ℕ
  pub can_publish : Option Bool
  pub can_receive : Option Bool
  pub voice_channel : Option Ident
  pub remove : List FieldsMember
  pub is_valid : Bool

-- `if test { check?; }`
abbrev pub when : Bool → Result Done → Result Done
when test check = if test then check else ok tt

-- `if test { return Err(e) }`
abbrev pub unless : Bool → Error → Result Done
unless test e = if test then err e else ok tt

-- `field.is_some() || remove.contains(&name)`
abbrev pub touches {ℓ} : {A : Type ℓ} → DataMemberEdit → Option A → FieldsMember → Bool
touches body field name = is_some field || removes body.remove name

-- `is_self` says that the member is the caller, `ours` and `theirs` are the permissions of the two.
module _ (is_self : Bool) (ours theirs : PermissionValue) (body : DataMemberEdit) where
  abbrev pub need : ChannelPermission → Result Done
  need = throw_if_lacking_channel_permission ours

  abbrev pub check_nickname : Result Done
  check_nickname = when (touches body body.nickname FieldsMember.nickname) (
      need
        (if is_self then ChannelPermission.change_nickname else ChannelPermission.manage_nicknames))

  abbrev pub check_avatar : Result Done
  check_avatar =
      when (touches body body.avatar FieldsMember.avatar)
        (if is_self then need ChannelPermission.change_avatar else err Error.invalid_operation)

  abbrev pub check_assign : Result Done
  check_assign =
      when (touches body body.roles FieldsMember.roles) (need ChannelPermission.assign_roles)

  abbrev pub check_timeout : Result Done
  check_timeout = when (touches body body.timeout FieldsMember.timeout) (do
    when (is_some body.timeout) (do
      unless is_self Error.cannot_timeout_yourself
      unless (has_channel_permission theirs ChannelPermission.timeout_members) Error.is_elevated)
    need ChannelPermission.timeout_members)

  abbrev pub check_voice : (is_enabled : Bool) → Result Done
  check_voice is_enabled = do
    when (is_some body.can_publish) (need ChannelPermission.mute_members)
    when (is_some body.can_receive) (need ChannelPermission.deafen_members)
    unless (is_some body.voice_channel && removes body.remove FieldsMember.voice_channel)
        Error.invalid_operation
    when (touches body body.voice_channel FieldsMember.voice_channel) (do
      unless (not is_enabled) Error.live_kit_unavailable
      when (not is_self) (need ChannelPermission.move_members))

  -- `// Check permissions in server`
  unfoldable pub check_permissions : (is_enabled : Bool) → Result Done
  check_permissions is_enabled = do
    check_nickname
    check_avatar
    check_assign
    check_timeout
    check_voice is_enabled

-- A `HashSet` has each id once; its order is left open, and here the list's is taken.
unfoldable pub to_set : List Ident → List Ident
to_set [] = []
to_set (id ∷ ids) = let rest = to_set ids in if contains rest id then rest else id ∷ rest

-- `new_roles.difference(&current_roles)`
unfoldable pub added_roles : (current new : List Ident) → List Ident
unfolding to_set
added_roles current new = filter (λ id. not (contains current id)) (to_set new)

-- The loop over the added roles, which takes each out of `server.roles`: the roles after it.
unfoldable pub check_added : ℤ → HashMap Role → List Ident → Result (HashMap Role)
check_added our_ranking known [] = ok known
check_added our_ranking known (id ∷ ids) =
    let rest = check_added our_ranking (HashMap.remove id known) ids in
    elim (HashMap.get id known) [
      | none ↦ err Error.invalid_role
      | some role ↦ if leb_ℤ role.rank our_ranking then err Error.not_elevated else rest
    ]

-- `// Check permissions against roles in diff`
unfoldable pub check_roles :
    ℤ → HashMap Role → (current : List Ident) → (new : Option (List Ident)) → Result (HashMap Role)
unfolding added_roles check_added
check_roles our_ranking known current none = ok known
check_roles our_ranking known current (some new) =
    check_added our_ranking known (added_roles current new)
