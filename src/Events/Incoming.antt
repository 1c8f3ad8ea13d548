-- ===== src/Events/Incoming.antt =====
-- `State::handle_incoming_event_v1` of crates/bonfire/src/events/impl.rs. `none` is a panic.
pub mod Finishing
pub mod Reacts
pub mod Returns
pub mod RowsInStep
pub mod InStep
use company_backend.Prelude.{
  ==_iff, ℕ, Ident, ◌≡◌, ◌≢◌, refl, sym, ap, ◌∙◌, Bool, true, false, not, ◌&&◌, ◌||◌, Option, none,
  some, List, [], ◌∷◌, ◌++◌, map, contains, filter, arith, Bool-cases, Option-cases, inl, inr, ◌⊎◌,
  ◌==◌, if◌then◌else◌,
}
use company_backend.Prelude.HashMap.{
  HashMap, get, contains_key, insert, remove, get-insert, get-remove,
}
use company_backend.Prelude.HashSet
use mathlib.Core.Option.{some_inj}
use mathlib.Core.Path.{subst}
use company_backend.Models.{
  RelationshipStatus, User, Role, Server, Member, MemberCompositeKey, Channel,
}
use company_backend.Users.{relationship_with}
use company_backend.Events.Subscriptions.{
  Subscriptions, topic, member_topic, insert_subscription, remove_subscription, removed_from,
  queue_remove,
}
use company_backend.Events.Cache.{
  Cache, Outside, channel_id, on_server, can_view_channel, filter_accessible_channels,
  can_subscribe_to_user,
}
use company_backend.Events.Connection.{
  Connection, Event, Delivery, subscribe, unsubscribe, cache_channel, forget_channel, ◌>>=◌, Sorted,
  sorted_into, sort_channels, subscribe_all, drop_all, admit_all, newly_seen, delivered,
  recalculate_server,
}
use company_backend.Events.Reaction.{
  Queue, Step, nothing, server_if, with_servers, with_members, with_users, default_member,
  could_view, fetched, ensure_cached, changed_view, compare_view, apply_update, on_channel_update,
  go_on, on_group_leave, cache_all, cache_server, on_server_create, drop_channels, drop_server,
  on_member_leave, on_server_update, on_member_update, has_role, with_roles, on_role_update,
  on_role_delete, mark_seen, on_user_update, on_relationship, on_message, react,
}

abbrev pub recalculate_queued :
    Outside → Option Ident → Event → Connection → Option (Connection × Delivery)
recalculate_queued outside none event s = some (s, Delivery.single event)
recalculate_queued outside (some id) event s = recalculate_server outside id event s

abbrev pub add_queued : Option Ident → Connection → Connection
add_queued none s = s
add_queued (some id) s = subscribe (topic id) s

abbrev pub remove_queued : Option Ident → Connection → Option Connection
remove_queued none s = some s
remove_queued (some id) s = unsubscribe (topic id) s

-- What follows the match. `none` for the delivery where the event is not passed on.
abbrev pub finish : Outside → Step → Option (Connection × Option Delivery)
finish outside (Step.stop s) = some (s, none)
finish outside (Step.go s event queue) = recalculate_queued outside queue.server event s >>= λ r.
    remove_queued queue.remove (add_queued queue.add r.0) >>= λ s'. some (s', some r.1)

-- `State::handle_incoming_event_v1`
unfoldable pub handle_incoming_event_v1 :
    Outside → Event → Connection → Option (Connection × Option Delivery)
handle_incoming_event_v1 outside event s = react outside event s >>= finish outside
