-- ===== src/Events/Incoming/Returns.antt =====
-- The handler of incoming events returns, and passes the event on.
use company_backend.Prelude.{
  ◌≡◌, refl, ◌∙◌, true, false, not, Option, none, some, contains, Bool-cases, inl, inr, ◌==◌,
}
use company_backend.Prelude.HashMap.{update, get, insert, remove}
use company_backend.Events.Subscriptions.{topic}
use company_backend.Events.Cache.{Outside, can_subscribe_to_user}
use company_backend.Events.Connection.{Connection, Event, Delivery, subscribe, forget_channel}
use company_backend.Events.Reaction.{
  Step, nothing, with_servers, with_users, has_role, with_roles, mark_seen, on_user_update, react,
}
use company_backend.Events.Incoming.{handle_incoming_event_v1}
use company_backend.Events.Incoming.Finishing.{IsReady, is_repeated, is_sent, finish_returns}
use company_backend.Events.Incoming.Reacts.{
  Reacts, go_on-Idles, unsubscribe-Idles, drop_server-Idles, Idles-if, server_if-CanFinish,
  server_create-Reacts, channel_update-Reacts, member_update-Reacts, message-Reacts,
}

react_returns :
    (outside : Outside) (event : Event) (s : Connection) → IsReady s → Reacts outside event s
react_returns outside (Event.channel_create c) s ready = (_, refl, inl refl, refl)
react_returns outside (Event.channel_update id change) s ready =
    channel_update-Reacts outside id change s ready
react_returns outside (Event.channel_delete id) s ready =
    let (s', e) = unsubscribe-Idles (topic id) s ready.0 in
    (
      Step.go (forget_channel id s') (Event.channel_delete id) nothing,
      rw (react, e) refl,
      inl refl,
      refl,
    )
react_returns outside (Event.channel_group_join id user) s ready = (_, refl, inl refl, refl)
react_returns outside (Event.channel_group_leave id user) s ready =
    go_on-Idles (Event.channel_group_leave id user) _ (
      Idles-if (user == s.cache.user_id) _ _ (unsubscribe-Idles (topic id) s ready.0) (
        Idles-if (can_subscribe_to_user s.cache user) _ _ (s, refl)
          (unsubscribe-Idles (topic user) s ready.0)))
react_returns outside (Event.server_create id server channels) s ready =
    server_create-Reacts outside id server channels s ready
react_returns outside (Event.server_update id change touched) s ready = (
  _,
  refl,
  server_if-CanFinish touched id (Event.server_update id change touched)
      (with_servers (update change id s.cache.servers) s) ready,
  refl,
)
react_returns outside (Event.server_member_join id user) s ready = (_, refl, inl refl, refl)
react_returns outside (Event.server_member_leave id user) s ready =
    go_on-Idles (Event.server_member_leave id user) _
      (Idles-if (user == s.cache.user_id) _ _ (drop_server-Idles id s ready) (s, refl))
react_returns outside (Event.server_delete id) s ready =
    go_on-Idles (Event.server_delete id) _ (drop_server-Idles id s ready)
react_returns outside (Event.server_member_update id change touched) s ready =
    member_update-Reacts outside id change touched s ready
react_returns outside (Event.server_role_update id role_id change true) s ready = (
  _,
  refl,
  server_if-CanFinish (has_role role_id (get id s.cache.members)) id
      (Event.server_role_update id role_id change true)
      (with_servers (update (with_roles (update change role_id)) id s.cache.servers) s) ready,
  refl,
)
react_returns outside (Event.server_role_update id role_id change false) s ready =
    (_, refl, inl refl, refl)
react_returns outside (Event.server_role_delete id role_id) s ready = (
  _,
  refl,
  server_if-CanFinish (has_role role_id (get id s.cache.members)) id
      (Event.server_role_delete id role_id)
      (with_servers (update (with_roles (remove role_id)) id s.cache.servers) s) ready,
  refl,
)
react_returns outside (Event.user_update none) s ready = (_, refl, inl refl, refl)
react_returns outside (Event.user_update (some id)) s ready =
    elim (Bool-cases (contains s.cache.seen_events id)) [
      | inl old ↦ (Step.stop s, rw (react, on_user_update, old) refl, tt, rw old refl)
      | inr new ↦ (
        Step.go (mark_seen outside id s) (Event.user_update none) nothing,
        rw (react, on_user_update, new) refl,
        inl refl,
        rw new refl,
      )
    ]
react_returns outside (Event.user_relationship id user) s ready =
    let s' = with_users (insert id user s.cache.users) s in
    go_on-Idles (Event.user_relationship id user) _ (
      Idles-if (can_subscribe_to_user s'.cache id) _ _ (subscribe (topic id) s', refl)
        (unsubscribe-Idles (topic id) s' ready.0))
react_returns outside (Event.message author relationship) s ready =
    message-Reacts outside author relationship s ready
react_returns outside Event.other s ready = (_, refl, inl refl, refl)

-- The handler returns on every event, if no reset is queued and the user's own row is cached, and
-- whatever the database answers. It passes something on to the client for every event but a user
-- update whose event id the connection has seen.
pub handle_incoming_event_v1_returns :
    (outside : Outside) (event : Event) (s : Connection)
    → IsReady s
    → (s' : Connection) × (d : Option Delivery) × (handle_incoming_event_v1 outside event s
        ≡ some (s', d))
      × (is_sent d ≡ not (is_repeated event s))
unfolding handle_incoming_event_v1
handle_incoming_event_v1_returns outside event s ready =
    let (step, reacts, fine, sent) = react_returns outside event s ready in
    let (s', d, e, went) = finish_returns outside step fine in
    (s', d, rw (handle_incoming_event_v1, reacts) e, went ∙ sent)
