-- ===== src/Routes/VoiceMove/Quiet.antt =====
-- What the voice part of a member edit does to the stores.
use company_backend.Prelude.{
  ◌≡◌, refl, ◌∙◌, ◌≢◌, Ident, false, not, Option, none, some, Option-cases, inl, inr,
}
use company_backend.Prelude.HashMap
use company_backend.Models.{User, Server, Member, Channel}
use company_backend.Permissions.Calculate.{calculate_channel_permissions}
use company_backend.DatabaseQuery.State.{DatabasePermissionQuery, with_channel, new, is_some}
use company_backend.DatabaseQuery.Methods.{query}
use company_backend.DatabaseQuery.ChannelFlags.{text_channel_total}
use company_backend.Permissions.Flags.{ChannelPermission}
use company_backend.Permissions.Value.{throw_if_lacking_channel_permission}
use company_backend.Result.{Error, Result, ok, err, Done}
use company_backend.Routes.World.{
  World, Services, VoiceCall, or_else, Route, after, ask, call, view, ◌>>=◌, ◌>>◌,
}
use company_backend.Routes.Responds.{
  Responds, Responds-bind, Responds-lift, Responds-refuse, Responds-either, Responds-map, Keeps,
  IsQuiet, quiet-call, quiet-lift, quiet,
}
use company_backend.Routes.Checks.{FieldsMember, DataMemberEdit, removes}
use company_backend.Routes.VoiceMove.{
  new_voice_channel, move_user, sync_mute, remove_from_voice, move_or_sync, follow_in_voice,
  in_voice, if_found, node_for, is_elsewhere, mutes, channel_id, permissions_in,
}

-- A channel that is asked for has a node.
abbrev pub HasNodes : Services → Type 0
HasNodes services = (u : World) (channel : Ident) → services.channel_node u channel ≢ ok none

-- The channel is one of the server's, for which the calculation does not panic.
channel_total :
    (q : DatabasePermissionQuery) (c : Channel) (here : Ident)
    → q.channel ≡ some c
    → is_elsewhere c here ≡ false
    → calculate_channel_permissions query q ≢ none
channel_total q (Channel.text_channel id server field permissions) here e h =
    text_channel_total q id server field permissions e
channel_total q (Channel.saved_messages id user) here e h = cc
channel_total q (Channel.direct_message id recipients) here e h = cc
channel_total q (Channel.group id owner recipients permissions moderators) here e h = cc

-- The channel that comes of `new_voice_channel` belongs to the server.
abbrev pub IsHere : Ident → Option Channel → Type 0
IsHere here none = Unit
IsHere here (some c) = is_elsewhere c here ≡ false

module _ (services : Services) (w0 : World) where
  node_step :
      (r : Result (Option Ident)) (w : World) (f : Ident → Route Done)
      → r ≢ ok none
      → quiet w ≡ quiet w0
      → ((node : Ident) → Responds (IsQuiet w0) (f node w))
      → Responds (IsQuiet w0) (after (some (w, r)) (λ node. ask node >>= f))
  node_step (err e) w f n q k = q
  node_step (ok none) w f n q k = absurd (n refl)
  node_step (ok (some node)) w f n q k = k node

module _ (services : Services) (nodes : HasNodes services) where
  sync_mute_quiet :
      (user : User) (server : Server) (id : Ident) → Keeps (sync_mute services user server id)
  unfolding sync_mute
  sync_mute_quiet user server id w =
      node_step services w (services.channel_node w id) w _ (nodes w id) refl (λ node.
        quiet-lift w _ w (or_else (HashMap.get id w.channels) Error.not_found) refl
          (λ channel e. refl))

  remove_quiet : (user : User) (id : Ident) → Keeps (remove_from_voice services user id)
  unfolding remove_from_voice
  remove_quiet user id w =
      node_step services w (services.channel_node w id) w _ (nodes w id) refl (λ node. refl)

  move_after :
      (target : User) (channel : Channel) (old here : Ident) (old_node new_node : Ident)
      (w0 w : World)
      → is_elsewhere channel here ≡ false
      → quiet w ≡ quiet w0
      → Responds (IsQuiet w0) (
          (do
            call services (VoiceCall.set_user_moved_from_voice old (channel_id channel) target.id)
            call services (VoiceCall.set_user_moved_to_voice (channel_id channel) old target.id)
            value ← permissions_in services target channel
            call services (VoiceCall.create_room new_node (channel_id channel))
            call services (VoiceCall.create_token new_node target.id value (channel_id channel))
            call services (VoiceCall.remove_user old_node target.id old))
            w)
  unfolding permissions_in new
  move_after target channel old here old_node new_node w0 w ours q =
      let id : Ident = channel_id channel in
      quiet-call w0 _ services (VoiceCall.set_user_moved_from_voice old id target.id) w q (λ w1 q1.
        quiet-call w0 _ services (VoiceCall.set_user_moved_to_voice id old target.id) w1 q1
          (λ w2 q2.
            elim (Option-cases (
              calculate_channel_permissions query
                (with_channel channel (new (view services w2) target)))) [
                  | inl panics ↦ absurd (
                      channel_total (with_channel channel (new (view services w2) target)) channel
                        here refl ours panics)
                  | inr ((value, rest), e) ↦ rw e (
                      quiet-call w0 _ services (VoiceCall.create_room new_node id) w2 q2 (λ w3 q3.
                        quiet-call w0 _ services
                          (VoiceCall.create_token new_node target.id value id) w3 q3 (λ w4 q4. q4)))
                ]))

  move_quiet :
      (target : User) (channel : Channel) (old here : Ident)
      → is_elsewhere channel here ≡ false
      → Keeps (move_user services target channel old)
  unfolding move_user
  move_quiet target channel old here ours w =
      node_step services w (services.channel_node w old) w _ (nodes w old) refl (λ old_node.
        quiet-lift w _ w (services.channel_node w (channel_id channel)) refl
          (λ found e. at_node old_node found))
    where
      at_node :
          (old_node : Ident) (found : Option Ident)
          → Responds (IsQuiet w) (
              (node_for services (channel_id channel) old_node found >>= (λ new_node. do
                call services
                    (VoiceCall.set_user_moved_from_voice old (channel_id channel) target.id)
                call services (VoiceCall.set_user_moved_to_voice (channel_id channel) old target.id)
                value ← permissions_in services target channel
                call services (VoiceCall.create_room new_node (channel_id channel))
                call services (VoiceCall.create_token new_node target.id value (channel_id channel))
                call services (VoiceCall.remove_user old_node target.id old)))
                w)
      at_node old_node (some node) = move_after target channel old here old_node node w w ours refl
      at_node old_node none =
          Responds-bind (IsQuiet w) _ (IsQuiet w)
            (node_for services (channel_id channel) old_node none w)
            (quiet-call w _ services (VoiceCall.set_channel_node (channel_id channel) old_node) w
              refl (λ w' q. q))
            (λ w' e q. q)
            (λ w' node q. move_after target channel old here old_node node w w' ours q)

  in_voice_quiet :
      (target server : Ident) (act : Ident → Route Done)
      → ((id : Ident) → Keeps (act id))
      → Keeps (in_voice services target server act)
  in_voice_quiet target server act k w =
      quiet-lift w _ w (services.user_voice_channel w target server) refl
        (λ channel e. found channel)
    where
      found : (channel : Option Ident) → Responds (IsQuiet w) (if_found services act channel w)
      found none = refl
      found (some id) = k id w

  move_or_sync_quiet :
      (user target : User) (server : Server) (body : DataMemberEdit) (channel : Option Channel)
      (here : Ident)
      → IsHere here channel
      → Keeps (move_or_sync services user target server body channel)
  move_or_sync_quiet user target server body (some channel) here ours w =
      in_voice_quiet target.id server.id _ (λ old. move_quiet target channel old here ours) w
  move_or_sync_quiet user target server body none here ours w =
      Responds-either (IsQuiet w) w (mutes services body) _ _
        (in_voice_quiet target.id server.id _ (λ id. sync_mute_quiet user server id) w) refl

  pub follow_quiet :
      (user target : User) (server : Server) (body : DataMemberEdit) (channel : Option Channel)
      (here : Ident)
      → IsHere here channel
      → Keeps (follow_in_voice services user target server body channel)
  unfolding follow_in_voice
  follow_quiet user target server body channel here ours w =
      Responds-bind (IsQuiet w) _ (IsQuiet w)
        (move_or_sync services user target server body channel w)
        (move_or_sync_quiet user target server body channel here ours w) (λ w' e q. q)
        (λ w' done q.
          Responds-either (IsQuiet w) w' (removes body.remove FieldsMember.voice_channel) _ _
            (Responds-map _ _
              (in_voice services target.id server.id (λ id. remove_from_voice services user id) w')
              (λ u r p. p ∙ q)
              (in_voice_quiet target.id server.id _ (λ id. remove_quiet user id) w'))
            q)

-- The check of the new channel changes nothing, and the channel is one of the server's.
abbrev pub Finds : World → Ident → World → Result (Option Channel) → Type 0
Finds w here w' (ok channel) = (w' ≡ w) × IsHere here channel
Finds w here w' (err e) = w' ≡ w

pub new_voice_channel-Finds :
    (services : Services) (q : DatabasePermissionQuery) (target : Ident) (server : Server)
    (member : Member) (wanted : Option Ident) (w : World)
    → Responds
        (Finds w member.id.server)
        (new_voice_channel services q target server member wanted w)
unfolding new_voice_channel
new_voice_channel-Finds services q target server member none w = (refl, tt)
new_voice_channel-Finds services q target server member (some id) w =
    Responds-lift F _ w (or_else (HashMap.get id w.channels) Error.unknown_channel) (λ e p. refl)
      (λ channel p.
        Responds-refuse F _ w (is_elsewhere channel member.id.server) Error.unknown_channel
          (λ away. refl)
          (λ ours.
            elim (Option-cases (calculate_channel_permissions query (with_channel channel q))) [
              | inl panics ↦
                  absurd (
                    channel_total (with_channel channel q) channel member.id.server refl ours
                      panics)
              | inr ((value, after), e) ↦ rw e (
                  Responds-lift F _ w
                    (throw_if_lacking_channel_permission value ChannelPermission.connect)
                    (λ e p. refl)
                    (λ done p.
                      Responds-lift F _ w (services.user_voice_channel w target server.id)
                        (λ e p. refl)
                        (λ current p.
                          Responds-refuse F _ w (not (is_some current)) Error.not_connected
                            (λ gone. refl) (λ there. (refl, ours)))))
            ]))
  where
    F : World → Result (Option Channel) → Type 0
    F = Finds w member.id.server
