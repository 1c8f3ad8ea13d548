-- ===== src/Permissions/Calculate.antt =====
-- crates/core/permissions/src/impl.rs: the three calculators, over any query.
use company_backend.Prelude.{ℕ, ◌+◌, ◌-◌, ◌^◌, bit_or, Bool, not, List, [], ◌∷◌, if◌then◌else◌}
use company_backend.Permissions.Flags.{
  ChannelType, RelationshipStatus, UserPermission, user_bits, ChannelPermission, bits,
  allow_in_timeout, default_permission_view_only, default_permission_saved_messages,
  default_permission_direct_message,
}
use company_backend.Permissions.Override.{Override}
use company_backend.Permissions.Value.{
  PermissionValue, apply, revoke, revoke_all, restrict, has_user_permission, has_channel_permission,
}
use company_backend.Permissions.Query.{Ask, PermissionQuery, pure, or_else, ◌>>=◌, ◌>>◌}

-- `u64::MAX`
abbrev pub u64_max : ℕ
u64_max = 2 ^ 64 - 1

-- `for role_override in overrides { permissions.apply(role_override); }`
unfoldable pub apply_all : PermissionValue → List Override → PermissionValue
apply_all v [] = v
apply_all v (o ∷ os) = apply_all (apply v o) os

abbrev access : ℕ
access = user_bits UserPermission.access

abbrev view_profile : ℕ
view_profile = user_bits UserPermission.view_profile

abbrev send : ℕ
send = user_bits UserPermission.send_message

-- The mutes and the timeout of a member, which end `calculate_server_permissions`.
abbrev pub mute_publish : Bool → PermissionValue → PermissionValue
mute_publish can v =
    if can
    then v
    else revoke (revoke v (bits ChannelPermission.speak)) (bits ChannelPermission.video)

abbrev pub mute_receive : Bool → PermissionValue → PermissionValue
mute_receive can v = if can then v else revoke v (bits ChannelPermission.listen)

abbrev pub time_out : Bool → PermissionValue → PermissionValue
time_out timed_out v = if timed_out then restrict v allow_in_timeout else v

-- `if !has(ViewChannel) { revoke_all() }`
abbrev pub hide_unviewable : PermissionValue → PermissionValue
hide_unviewable v =
    if has_channel_permission v ChannelPermission.view_channel then v else revoke_all v

module _ {Q : Type 0} (query : PermissionQuery Q) where
  open query use {
    are_we_privileged, are_we_a_bot, are_the_users_same, user_relationship, user_is_bot,
    have_mutual_connection, are_we_server_owner, are_we_a_member, get_default_server_permissions,
    get_our_server_role_overrides, are_we_timed_out, do_we_have_publish_overwrites,
    do_we_have_receive_overwrites, get_channel_type, get_default_channel_permissions,
    get_our_channel_role_overrides, do_we_own_the_channel, are_we_a_group_moderator,
    are_we_part_of_the_channel, set_recipient_as_user, set_server_from_channel,
  }

  -- The end of `calculate_user_permissions`, with the `permissions` that the `match` leaves.
  with_mutual_connection : PermissionValue → Ask Q PermissionValue
  with_mutual_connection permissions = do
    connected ← have_mutual_connection
    if connected
        then (do
          bot ← or_else user_is_bot are_we_a_bot
          pure (if bot then access + view_profile + send else access + view_profile))
        else pure permissions

  -- `match query.user_relationship().await`
  by_relationship : RelationshipStatus → Ask Q PermissionValue
  unfolding with_mutual_connection
  by_relationship RelationshipStatus.friend = pure u64_max
  by_relationship RelationshipStatus.blocked = pure access
  by_relationship RelationshipStatus.blocked_other = pure access
  by_relationship RelationshipStatus.incoming = with_mutual_connection access
  by_relationship RelationshipStatus.outgoing = with_mutual_connection access
  by_relationship RelationshipStatus.none = with_mutual_connection 0
  by_relationship RelationshipStatus.user = with_mutual_connection 0

  unfoldable pub calculate_user_permissions : Ask Q PermissionValue
  unfolding by_relationship
  calculate_user_permissions = do
    privileged ← are_we_privileged
    if privileged then pure u64_max else do
      same ← are_the_users_same
      if same then pure u64_max else do status ← user_relationship; by_relationship status

  unfoldable pub calculate_server_permissions : Ask Q PermissionValue
  calculate_server_permissions = do
    above ← or_else are_we_privileged are_we_server_owner
    if above then pure (bits ChannelPermission.grant_all_safe) else do
      member ← are_we_a_member
      if not member then pure 0 else do
        default ← get_default_server_permissions
        overrides ← get_our_server_role_overrides
        can_publish ← do_we_have_publish_overwrites
        can_receive ← do_we_have_receive_overwrites
        timed_out ← are_we_timed_out
        pure (
            time_out timed_out
              (mute_receive can_receive (mute_publish can_publish (apply_all default overrides))))

  in_direct_message : Ask Q PermissionValue
  unfolding calculate_user_permissions
  in_direct_message = do
    part ← are_we_part_of_the_channel
    if not part then pure 0 else do
      set_recipient_as_user
      permissions ← calculate_user_permissions
      pure (
          if has_user_permission permissions UserPermission.send_message
          then default_permission_direct_message
          else default_permission_view_only)

  in_group : Ask Q PermissionValue
  in_group = do
    above ← or_else do_we_own_the_channel are_we_a_group_moderator
    if above then pure (bits ChannelPermission.grant_all_safe) else do
      part ← are_we_part_of_the_channel
      if not part then pure 0 else do
        default ← get_default_channel_permissions
        pure (bit_or default_permission_view_only default.allow)

  in_server_channel : Ask Q PermissionValue
  unfolding calculate_server_permissions
  in_server_channel = do
    set_server_from_channel
    owner ← are_we_server_owner
    if owner then pure (bits ChannelPermission.grant_all_safe) else do
      member ← are_we_a_member
      if not member then pure 0 else do
        permissions ← calculate_server_permissions
        default ← get_default_channel_permissions
        overrides ← get_our_channel_role_overrides
        timed_out ← are_we_timed_out
        pure
            (hide_unviewable (time_out timed_out (apply_all (apply permissions default) overrides)))

  -- `match query.get_channel_type().await`
  by_channel_type : ChannelType → Ask Q PermissionValue
  unfolding in_direct_message in_group in_server_channel
  by_channel_type ChannelType.saved_messages = do
    own ← do_we_own_the_channel
    pure (if own then default_permission_saved_messages else 0)
  by_channel_type ChannelType.direct_message = in_direct_message
  by_channel_type ChannelType.group = in_group
  by_channel_type ChannelType.server_channel = in_server_channel
  by_channel_type ChannelType.unknown = pure 0

  unfoldable pub calculate_channel_permissions : Ask Q PermissionValue
  unfolding by_channel_type
  calculate_channel_permissions = do
    privileged ← are_we_privileged
    if privileged
        then pure (bits ChannelPermission.grant_all_safe)
        else do channel_type ← get_channel_type; by_channel_type channel_type
