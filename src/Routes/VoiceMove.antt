-- ===== src/Routes/VoiceMove.antt =====
-- The voice part of member_edit.rs (crates/delta/src/routes/servers): the check of the channel that
-- a member is to be moved to, and what is done after the row is changed.
pub mod Quiet
use company_backend.Prelude.{
  ℕ, Ident, Bool, true, not, ◌||◌, Option, none, some, ◌==◌, if◌then◌else◌,
}
use company_backend.Prelude.HashMap
use company_backend.Models.{User, Server, Member, Channel}
use company_backend.Permissions.Flags.{ChannelPermission}
use company_backend.Permissions.Value.{throw_if_lacking_channel_permission}
use company_backend.Permissions.Calculate.{calculate_channel_permissions}
use company_backend.DatabaseQuery.State.{DatabasePermissionQuery, is_some, new, with_channel}
use company_backend.DatabaseQuery.Methods.{query}
use company_backend.Result.{Error, ok, Done}
use company_backend.Routes.World.{
  VoiceCall, Services, Route, lift, ask, or_else, reads, ◌>>=◌, ◌>>◌, refuse_if, fetch, call, view,
}
use company_backend.Routes.Checks.{FieldsMember, DataMemberEdit, removes}

-- `channel.server().is_none_or(|v| v != server)`
abbrev pub is_elsewhere : Channel → Ident → Bool
is_elsewhere (Channel.text_channel id server field permissions) here = not (server == here)
is_elsewhere _ here = true

-- `Channel::id`
abbrev pub channel_id : Channel → Ident
channel_id (Channel.saved_messages id user) = id
channel_id (Channel.direct_message id recipients) = id
channel_id (Channel.group id owner recipients permissions moderators) = id
channel_id (Channel.text_channel id server field permissions) = id

module _ (services : Services) where
  abbrev pub user_voice_channel : (user server : Ident) → Route (Option Ident)
  user_voice_channel user server w = lift (services.user_voice_channel w user server) w

  abbrev pub channel_node : Ident → Route (Option Ident)
  channel_node channel w = lift (services.channel_node w channel) w

  -- `let new_voice_channel = …`: the channel found.
  unfoldable pub new_voice_channel :
      DatabasePermissionQuery
      → (target : Ident) → Server
      → Member
      → Option Ident
      → Route (Option Channel)
  unfolding calculate_channel_permissions
  new_voice_channel q target server member none = lift (ok none)
  new_voice_channel q target server member (some id) = do
    channel ← (λ w. lift (or_else (HashMap.get id w.channels) Error.unknown_channel) w)
    refuse_if (is_elsewhere channel member.id.server) Error.unknown_channel
    (value, after) ← ask (calculate_channel_permissions query (with_channel channel q))
    lift (throw_if_lacking_channel_permission value ChannelPermission.connect)
    current ← user_voice_channel target server.id
    refuse_if (not (is_some current)) Error.not_connected
    lift (ok (some channel))

  -- The node of the new channel; a channel without one gets the old node.
  abbrev pub node_for : (new_channel old_node : Ident) → Option Ident → Route Ident
  node_for new_channel old_node (some node) = lift (ok node)
  node_for new_channel old_node none = do
    call services (VoiceCall.set_channel_node new_channel old_node)
    lift (ok old_node)

  -- The user's permissions in the channel: `perms(db, &target_user).channel(&new_voice_channel)`.
  unfoldable pub permissions_in : User → Channel → Route ℕ
  unfolding new calculate_channel_permissions
  permissions_in user channel = do
    (value, after) ← (λ w.
        ask
          (calculate_channel_permissions query (with_channel channel (new (view services w) user)))
          w)
    lift (ok value)

  -- The move from `old` to `channel`; `unwrap` panics on a channel without a node.
  unfoldable pub move_user : User → Channel → (old : Ident) → Route Done
  unfolding permissions_in
  move_user target channel old = do
    let id : Ident = channel_id channel
    node ← channel_node old
    old_node ← ask node
    found ← channel_node id
    new_node ← node_for id old_node found
    call services (VoiceCall.set_user_moved_from_voice old id target.id)
    call services (VoiceCall.set_user_moved_to_voice id old target.id)
    value ← permissions_in target channel
    call services (VoiceCall.create_room new_node id)
    call services (VoiceCall.create_token new_node target.id value id)
    call services (VoiceCall.remove_user old_node target.id old)

  -- The voice permissions follow a mute; the code hands over the caller, `user`.
  unfoldable pub sync_mute : User → Server → (channel : Ident) → Route Done
  sync_mute user server id = do
    node ← channel_node id
    node ← ask node
    channel ← fetch (λ w. HashMap.get id w.channels)
    call services (VoiceCall.sync_user_voice_permissions node user.id id server)

  -- The removal from voice; the code hands over the caller, `user`.
  unfoldable pub remove_from_voice : User → (channel : Ident) → Route Done
  remove_from_voice user id = do
    node ← channel_node id
    node ← ask node
    call services (VoiceCall.remove_user node user.id id)

  abbrev pub if_found : (Ident → Route Done) → Option Ident → Route Done
  if_found act none = lift (ok tt)
  if_found act (some id) = act id

  -- Something is done if the target is in a voice channel of the server.
  abbrev pub in_voice : (target server : Ident) → (Ident → Route Done) → Route Done
  in_voice target server act = do channel ← user_voice_channel target server; if_found act channel

  -- A change of the mutes is asked for.
  abbrev pub mutes : DataMemberEdit → Bool
  mutes body =
      is_some body.can_publish
      || is_some body.can_receive
      || removes body.remove FieldsMember.can_publish
      || removes body.remove FieldsMember.can_receive

  abbrev pub move_or_sync :
      (user target : User) → Server → DataMemberEdit → Option Channel → Route Done
  move_or_sync user target server body (some channel) =
      in_voice target.id server.id (λ old. move_user target channel old)
  move_or_sync user target server body none =
      if mutes body
      then in_voice target.id server.id (λ id. sync_mute user server id)
      else lift (ok tt)

  -- What follows `member.update(…)`.
  unfoldable pub follow_in_voice :
      (user target : User) → Server → DataMemberEdit → Option Channel → Route Done
  unfolding move_user sync_mute remove_from_voice
  follow_in_voice user target server body channel = do
    move_or_sync user target server body channel
    if removes body.remove FieldsMember.voice_channel
        then in_voice target.id server.id (λ id. remove_from_voice user id)
        else lift (ok tt)
