-- ===== src/Events/Incoming/InStep.antt =====
-- The servers and the members that the cache holds while events come in.
use company_backend.Prelude.{Ident, ◌≡◌, refl, sym, ◌∙◌, Option, none, some, ◌==◌, if◌then◌else◌}
use company_backend.Prelude.HashMap.{update, insert, remove}
use company_backend.Events.Subscriptions.{topic, member_topic}
use company_backend.Events.Cache.{Outside, can_subscribe_to_user}
use company_backend.Events.Connection.{
  Connection, Event, Delivery, subscribe, unsubscribe, forget_channel, ◌>>=◌,
}
use company_backend.Events.Connection.Ends.{Ends, Ends-elim, Ends-if, Ends-bind}
use company_backend.Events.Connection.Rows.{SameRows, recalculate_server-SameRows}
use company_backend.Events.Reaction.{Step, with_users, go_on, with_roles, react}
use company_backend.Events.Incoming.{
  recalculate_queued, add_queued, remove_queued, finish, handle_incoming_event_v1,
}
use company_backend.Prelude.HashMap.{contains_key-update}
use company_backend.Events.Incoming.RowsInStep.{
  InStep, SameRows-InStep, after, drop_server-InStep, updated-InStep, cached_server-InStep,
  if-InStep, go_on-InStep, unsubscribe-InStep, channel_update-InStep, user_update-InStep,
  message-InStep,
}

react-InStep :
    (outside : Outside) (event : Event) (s : Connection)
    → InStep s
    → Ends (λ step. InStep (after step)) (react outside event s)
react-InStep outside (Event.channel_create c) s h = h
react-InStep outside (Event.channel_update id change) s h =
    channel_update-InStep outside id change (Event.channel_update id change) s h
react-InStep outside (Event.channel_delete id) s h =
    Ends-bind InStep (λ step. InStep (after step)) (unsubscribe (topic id) s)
      (λ s'. go_on (Event.channel_delete id) (some (forget_channel id s')))
      (unsubscribe-InStep (topic id) s h) (λ s' h'. h')
react-InStep outside (Event.channel_group_join id user) s h = h
react-InStep outside (Event.channel_group_leave id user) s h =
    go_on-InStep (Event.channel_group_leave id user) _ (
      Ends-if InStep (user == s.cache.user_id) _ _ (unsubscribe-InStep (topic id) s h) (
        Ends-if InStep (can_subscribe_to_user s.cache user) (some s) _ h
          (unsubscribe-InStep (topic user) s h)))
react-InStep outside (Event.server_create id server channels) s h =
    cached_server-InStep id server channels
      (if s.cache.is_bot
        then subscribe (member_topic id) (subscribe (topic id) s)
        else subscribe (topic id) s)
      (if-InStep s.cache.is_bot _ _ h h)
react-InStep outside (Event.server_update id change touched) s h = updated-InStep s change id h
react-InStep outside (Event.server_member_join id user) s h = h
react-InStep outside (Event.server_member_leave id user) s h =
    go_on-InStep (Event.server_member_leave id user) _
      (Ends-if InStep (user == s.cache.user_id) _ (some s) (drop_server-InStep id s h) h)
react-InStep outside (Event.server_delete id) s h =
    go_on-InStep (Event.server_delete id) _ (drop_server-InStep id s h)
react-InStep outside (Event.server_member_update id change touched) s h =
    Ends-if (λ step. InStep (after step)) (id.user == s.cache.user_id) _ _
      (λ k. h k ∙ sym (contains_key-update change id.server k s.cache.members)) h
react-InStep outside (Event.server_role_update id role_id change touched) s h =
    updated-InStep s (with_roles (update change role_id)) id h
react-InStep outside (Event.server_role_delete id role_id) s h =
    updated-InStep s (with_roles (remove role_id)) id h
react-InStep outside (Event.user_update event_id) s h = user_update-InStep outside event_id s h
react-InStep outside (Event.user_relationship id user) s h =
    let s' = with_users (insert id user s.cache.users) s in
    go_on-InStep (Event.user_relationship id user) _ (
      Ends-if InStep (can_subscribe_to_user s'.cache id) (some (subscribe (topic id) s')) _ h
        (unsubscribe-InStep (topic id) s' h))
react-InStep outside (Event.message author relationship) s h =
    message-InStep author relationship s h
react-InStep outside Event.other s h = h

recalculate_queued-SameRows :
    (outside : Outside) (server : Option Ident) (event : Event) (s : Connection)
    → Ends
        (λ (r : Connection × Delivery). SameRows s r.0)
        (recalculate_queued outside server event s)
recalculate_queued-SameRows outside none event s = (refl, refl)
recalculate_queued-SameRows outside (some id) event s =
    recalculate_server-SameRows outside id event s

add_queued-SameRows : (add : Option Ident) (s : Connection) → SameRows s (add_queued add s)
add_queued-SameRows none s = (refl, refl)
add_queued-SameRows (some id) s = (refl, refl)

remove_queued-InStep :
    (removed : Option Ident) (s : Connection) → InStep s → Ends InStep (remove_queued removed s)
remove_queued-InStep none s h = h
remove_queued-InStep (some id) s h = unsubscribe-InStep (topic id) s h

finish-InStep :
    (outside : Outside) (step : Step)
    → InStep (after step)
    → Ends (λ (r : Connection × Option Delivery). InStep r.0) (finish outside step)
finish-InStep outside (Step.stop s) h = h
finish-InStep outside (Step.go s event queue) h =
    Ends-bind (λ (r : Connection × Delivery). SameRows s r.0)
      (λ (r : Connection × Option Delivery). InStep r.0)
      (recalculate_queued outside queue.server event s)
      (λ r. remove_queued queue.remove (add_queued queue.add r.0) >>= λ s'. some (s', some r.1))
      (recalculate_queued-SameRows outside queue.server event s)
      (λ r same.
        Ends-bind InStep (λ (r : Connection × Option Delivery). InStep r.0)
          (remove_queued queue.remove (add_queued queue.add r.0)) (λ s'. some (s', some r.1))
          (remove_queued-InStep queue.remove (add_queued queue.add r.0) (
            SameRows-InStep r.0 (add_queued queue.add r.0) (add_queued-SameRows queue.add r.0)
              (SameRows-InStep s r.0 same h)))
          (λ s' h'. h'))

-- If the cache of a connection has a member under exactly the ids under which it has a server, it
-- still does after any event that the handler returns from.
pub handle_incoming_event_v1-InStep :
    (outside : Outside) (event : Event) (s s' : Connection) (d : Option Delivery)
    → handle_incoming_event_v1 outside event s ≡ some (s', d)
    → InStep s
    → InStep s'
unfolding handle_incoming_event_v1
handle_incoming_event_v1-InStep outside event s s' d e h =
    Ends-elim (λ (r : Connection × Option Delivery). InStep r.0)
      (handle_incoming_event_v1 outside event s) (s', d)
      (Ends-bind (λ step. InStep (after step)) (λ (r : Connection × Option Delivery). InStep r.0)
        (react outside event s) (finish outside) (react-InStep outside event s h)
        (λ step h'. finish-InStep outside step h'))
      e
