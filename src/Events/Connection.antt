-- ===== src/Events/Connection.antt =====
-- `State` of crates/bonfire/src/events/impl.rs: how a connection follows the events it receives.
-- `none` is a panic.
pub mod Sorting
pub mod Loops
pub mod Ends
pub mod Rows
pub mod Recalculation
pub mod Returns
use company_backend.Prelude.{
  ℕ, Ident, Bool, true, false, not, Option, none, some, List, [], ◌∷◌, ◌++◌, map, filter, contains,
  ◌==◌, if◌then◌else◌,
}
use company_backend.Prelude.HashMap.{HashMap, get, contains_key, insert, remove}
use company_backend.Prelude.HashSet
use company_backend.Models.{
  RelationshipStatus, User, Role, Server, Member, MemberCompositeKey, Channel,
}
use company_backend.Users.{relationship_with}
use company_backend.Events.Subscriptions.{
  Subscriptions, topic, member_topic, insert_subscription, remove_subscription,
}
use company_backend.Events.Cache.{
  Cache, Outside, channel_id, on_server, can_view_channel, filter_accessible_channels,
  can_subscribe_to_user,
}

pub record Connection : Type 0 where
  pub cache : Cache
  pub topics : Subscriptions

-- The events that the connection looks into. What `remove_field` and `apply_options` make of a row
-- is given as a function on the row, and a test says whether the fields that matter are set.
pub data Event : Type 0 where
  channel_create : Channel → Event
  channel_update : (id : Ident) (change : Channel → Channel) → Event
  channel_delete : (id : Ident) → Event
  channel_group_join : (id user : Ident) → Event
  channel_group_leave : (id user : Ident) → Event
  server_create : (id : Ident) (server : Server) (channels : List Channel) → Event
  server_update : (id : Ident) (change : Server → Server) (default_permissions : Bool) → Event
  server_member_join : (id user : Ident) → Event
  server_member_leave : (id user : Ident) → Event
  server_delete : (id : Ident) → Event
  server_member_update : (id : MemberCompositeKey) (change : Member → Member) (roles : Bool) → Event
  server_role_update :
      (id role_id : Ident) (change : Role → Role) (rank_or_permissions : Bool) → Event
  server_role_delete : (id role_id : Ident) → Event
  user_update : (event_id : Option Ident) → Event
  user_relationship : (id : Ident) (user : User) → Event
  message : (author : Ident) (relationship : Option RelationshipStatus) → Event
  other : Event

-- The event as it is sent on; `Bulk` holds several.
pub data Delivery : Type 0 where
  single : Event → Delivery
  bulk : List Event → Delivery

infixl 5 ◌>>=◌
abbrev pub ◌>>=◌ {ℓ κ} : {A : Type ℓ} {B : Type κ} → Option A → (A → Option B) → Option B
none >>= f = none
some a >>= f = f a

abbrev pub subscribe : Ident → Connection → Connection
subscribe t s = record s { topics = insert_subscription t s.topics }

abbrev pub unsubscribe : Ident → Connection → Option Connection
unsubscribe t s = elim (remove_subscription t s.topics) [
  | none ↦ none
  | some topics ↦ some (record s { topics = topics })
]

abbrev pub cache_channel : Ident → Channel → Connection → Connection
cache_channel id channel s = record s {
  cache = record s.cache { channels = insert id channel s.cache.channels };
}

abbrev pub forget_channel : Ident → Connection → Connection
forget_channel id s = record s { cache = record s.cache { channels = remove id s.cache.channels } }

-- The first loop of `recalculate_server`: the cached channels of the server, those that are seen,
-- and those that are not.
pub record Sorted : Type 0 where
  pub known : List Ident
  pub added : List Ident
  pub removed : List Ident

abbrev pub sorted_into : Ident → Bool → Sorted → Sorted
sorted_into k true r = record r { known = k ∷ r.known; added = k ∷ r.added }
sorted_into k false r = record r { known = k ∷ r.known; removed = k ∷ r.removed }

unfoldable pub sort_channels : (Channel → Option Bool) → Ident → HashMap Channel → Option Sorted
sort_channels view id [] = some (record { known = []; added = []; removed = [] })
sort_channels view id ((k, c) ∷ rest) =
    let others = sort_channels view id rest in
    if on_server id c
    then (view c >>= λ seen. others >>= λ r. some (sorted_into k seen r))
    else others

unfoldable pub subscribe_all : List Ident → Connection → Connection
subscribe_all [] s = s
subscribe_all (id ∷ ids) s = subscribe_all ids (subscribe (topic id) s)

unfoldable pub drop_all : List Ident → Connection → Option Connection
drop_all [] s = some s
drop_all (id ∷ ids) s = unsubscribe (topic id) s >>= λ s'. drop_all ids (forget_channel id s')

unfoldable pub admit_all : List Channel → Connection → Connection
admit_all [] s = s
admit_all (c ∷ cs) s =
    admit_all cs (subscribe (topic (channel_id c)) (cache_channel (channel_id c) c s))

-- The channels that the server lists and the cache does not have, where the user may see them.
abbrev pub newly_seen : Outside → Cache → List Ident → Option (List Channel)
newly_seen outside cache [] = some []
newly_seen outside cache (u ∷ us) = elim (outside.fetch_channels (u ∷ us)) [
  | none ↦ some []
  | some channels ↦ filter_accessible_channels outside cache channels
]

abbrev pub delivered : List Event → Event → Delivery
delivered [] event = Delivery.single event
delivered (e ∷ es) event = Delivery.bulk ((e ∷ es) ++ (event ∷ []))

-- `State::recalculate_server`
unfoldable pub recalculate_server :
    Outside → Ident → Event → Connection → Option (Connection × Delivery)
unfolding sort_channels subscribe_all drop_all admit_all
recalculate_server outside id event s = elim (get id s.cache.servers) [
  | none ↦ some (s, Delivery.single event)
  | some server ↦ sort_channels (can_view_channel outside s.cache) id s.cache.channels >>= λ sorted.
      drop_all sorted.removed (subscribe_all sorted.added s) >>= λ s'.
      newly_seen outside s'.cache
        (filter (λ x. not (contains sorted.known x)) (HashSet.insert_all server.channels []))
      >>= λ fresh. some (
        admit_all fresh s',
        delivered (map Event.channel_delete sorted.removed ++ map Event.channel_create fresh) event,
      )
]
