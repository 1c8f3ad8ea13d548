-- ===== src/Events/Reaction.antt =====
-- The match of `State::handle_incoming_event_v1` in crates/bonfire/src/events/impl.rs. `none` is a
-- panic.
use company_backend.Prelude.{
  Ident, Bool, true, false, Option, none, some, List, [], ◌∷◌, contains, ◌==◌, if◌then◌else◌,
}
use company_backend.Prelude.HashMap.{update, HashMap, get, insert, remove}
use company_backend.Models.{
  RelationshipStatus, User, Role, Server, Member, MemberCompositeKey, Channel,
}
use company_backend.Users.{relationship_with}
use company_backend.Events.Subscriptions.{topic, member_topic}
use company_backend.Events.Cache.{
  Cache, Outside, channel_id, can_view_channel, can_subscribe_to_user,
}
use company_backend.Events.Connection.{
  Connection, Event, subscribe, unsubscribe, cache_channel, forget_channel, ◌>>=◌, drop_all,
}

-- What the match on the event leaves to do.
pub record Queue : Type 0 where
  pub server : Option Ident
  pub add : Option Ident
  pub remove : Option Ident

-- `stop` is the early return.
pub data Step : Type 0 where
  stop : Connection → Step
  go : Connection → Event → Queue → Step

abbrev pub nothing : Queue
nothing = record { server = none; add = none; remove = none }

abbrev pub server_if : Bool → Ident → Queue
server_if true id = record { server = some id; add = none; remove = none }
server_if false id = nothing

-- Setters for the maps of the cache.
abbrev pub with_servers : HashMap Server → Connection → Connection
with_servers m s = record s { cache = record s.cache { servers = m } }

abbrev pub with_members : HashMap Member → Connection → Connection
with_members m s = record s { cache = record s.cache { members = m } }

abbrev pub with_users : HashMap User → Connection → Connection
with_users m s = record s { cache = record s.cache { users = m } }

-- `Member::default` with an id
abbrev pub default_member : MemberCompositeKey → Member
default_member id = record {
  id = id;
  nickname = none;
  avatar = none;
  roles = [];
  timeout = none;
  can_publish = true;
  can_receive = true;
}

-- The view of a channel that may not be cached.
abbrev pub could_view : Outside → Cache → Option Channel → Option Bool
could_view outside cache none = some false
could_view outside cache (some channel) = can_view_channel outside cache channel

-- The channel is fetched if it is not cached.
abbrev pub fetched : Ident → Option Channel → Option Channel → Connection → Connection
fetched id none (some channel) s = cache_channel id channel s
fetched id _ _ s = s

abbrev pub ensure_cached : Outside → Ident → Connection → Connection
ensure_cached outside id s = fetched id (get id s.cache.channels) (outside.fetch_channel id) s

abbrev pub changed_view : Ident → Channel → (could can : Bool) → Connection → Event → Step
changed_view id channel false true s event =
    Step.go s (Event.channel_create channel)
      (record { server = none; add = some id; remove = none })
changed_view id channel true false s event =
    Step.go s (Event.channel_delete id) (record { server = none; add = none; remove = some id })
changed_view id channel _ _ s event = Step.go s event nothing

abbrev pub compare_view : Outside → Ident → Bool → Option Channel → Connection → Event → Option Step
compare_view outside id could none s event = some (Step.go s event nothing)
compare_view outside id could (some channel) s event =
    can_view_channel outside s.cache channel >>= λ can.
    some (changed_view id channel could can s event)

-- The channel after an update of the fields, and fetched if it was not cached.
abbrev pub apply_update : Outside → Ident → (Channel → Channel) → Connection → Connection
apply_update outside id change s =
    ensure_cached outside id
      (record s { cache = record s.cache { channels = update change id s.cache.channels } })

abbrev pub on_channel_update :
    Outside → Ident → (Channel → Channel) → Event → Connection → Option Step
on_channel_update outside id change event s =
    could_view outside s.cache (get id s.cache.channels) >>= λ could.
    let s' = apply_update outside id change s in
    compare_view outside id could (get id s'.cache.channels) s' event

abbrev pub go_on : Event → Option Connection → Option Step
go_on event none = none
go_on event (some s) = some (Step.go s event nothing)

abbrev pub on_group_leave : (id user : Ident) → Event → Connection → Option Step
on_group_leave id user event s = go_on event (
    if user == s.cache.user_id
    then unsubscribe (topic id) s
    else if can_subscribe_to_user s.cache user
    then some s
    else unsubscribe (topic user) s)

abbrev pub cache_all : List Channel → Connection → Connection
cache_all [] s = s
cache_all (c ∷ cs) s = cache_all cs (cache_channel (channel_id c) c s)

-- The row and the member of a new server are cached, and then its channels.
abbrev pub cache_server : Ident → Server → List Channel → Connection → Connection
cache_server id server channels s = cache_all channels (
    with_members
      (insert id (default_member (record { server = server.id; user = s.cache.user_id }))
        s.cache.members)
      (with_servers (insert id server s.cache.servers) s))

abbrev pub on_server_create : Ident → Server → List Channel → Event → Connection → Option Step
on_server_create id server channels event s =
    let s1 = subscribe (topic id) s in
    let s2 = if s1.cache.is_bot then subscribe (member_topic id) s1 else s1 in
    some (Step.go (cache_server id server channels s2) event (server_if true id))

-- The loop over the channels of a server that is gone.
abbrev pub drop_channels : Option Server → Connection → Option Connection
drop_channels none s = some s
drop_channels (some server) s = drop_all server.channels s

-- The server is left, or has been deleted.
abbrev pub drop_server : Ident → Connection → Option Connection
drop_server id s = unsubscribe (topic id) s >>= λ s1.
    drop_channels (get id s1.cache.servers) (with_servers (remove id s1.cache.servers) s1) >>= λ s2.
    some (with_members (remove id s2.cache.members) s2)

abbrev pub on_member_leave : (id user : Ident) → Event → Connection → Option Step
on_member_leave id user event s =
    go_on event (if user == s.cache.user_id then drop_server id s else some s)

abbrev pub on_server_update : Ident → (Server → Server) → Bool → Event → Connection → Option Step
on_server_update id change touched event s =
    some (Step.go (with_servers (update change id s.cache.servers) s) event (server_if touched id))

abbrev pub on_member_update :
    MemberCompositeKey → (Member → Member) → Bool → Event → Connection → Option Step
on_member_update id change touched event s =
    if id.user == s.cache.user_id
    then some (
        Step.go (with_members (update change id.server s.cache.members) s) event
          (server_if touched id.server))
    else some (Step.go s event nothing)

-- The user's member has the role.
abbrev pub has_role : Ident → Option Member → Bool
has_role role_id none = false
has_role role_id (some member) = contains member.roles role_id

abbrev pub with_roles : (HashMap Role → HashMap Role) → Server → Server
with_roles f server = record server { roles = f server.roles }

abbrev pub on_role_update :
    (id role_id : Ident) → (Role → Role) → Bool → Event → Connection → Option Step
on_role_update id role_id change touched event s =
    let s' = with_servers (update (with_roles (update change role_id)) id s.cache.servers) s in
    some (
      Step.go s' event
        (if touched then server_if (has_role role_id (get id s'.cache.members)) id else nothing))

abbrev pub on_role_delete : (id role_id : Ident) → Event → Connection → Option Step
on_role_delete id role_id event s =
    let s' = with_servers (update (with_roles (remove role_id)) id s.cache.servers) s in
    some (Step.go s' event (server_if (has_role role_id (get id s'.cache.members)) id))

abbrev pub mark_seen : Outside → Ident → Connection → Connection
mark_seen outside id s = record s {
  cache = record s.cache { seen_events = outside.put id s.cache.seen_events };
}

-- `stop` for an event that has been seen.
abbrev pub on_user_update : Outside → Option Ident → Connection → Option Step
on_user_update outside none s = some (Step.go s (Event.user_update none) nothing)
on_user_update outside (some id) s =
    if contains s.cache.seen_events id
    then some (Step.stop s)
    else some (Step.go (mark_seen outside id s) (Event.user_update none) nothing)

abbrev pub on_relationship : Ident → User → Event → Connection → Option Step
on_relationship id user event s =
    let s' = with_users (insert id user s.cache.users) s in
    go_on event (
      if can_subscribe_to_user s'.cache id
      then some (subscribe (topic id) s')
      else unsubscribe (topic id) s')

-- The relationship is that of the user of the connection, where the message carries its author.
abbrev pub on_message : Ident → Option RelationshipStatus → Connection → Option Step
on_message author none s = some (Step.go s (Event.message author none) nothing)
on_message author (some _) s = elim (get s.cache.user_id s.cache.users) [
  | none ↦ none
  | some user ↦
      some (Step.go s (Event.message author (some (relationship_with user author))) nothing)
]

-- The match on the event.
abbrev pub react : Outside → Event → Connection → Option Step
react outside (Event.channel_create c) s = some (
    Step.go (cache_channel (channel_id c) c (subscribe (topic (channel_id c)) s))
      (Event.channel_create c) nothing)
react outside (Event.channel_update id change) s =
    on_channel_update outside id change (Event.channel_update id change) s
react outside (Event.channel_delete id) s =
    unsubscribe (topic id) s >>= λ s'. go_on (Event.channel_delete id) (some (forget_channel id s'))
react outside (Event.channel_group_join id user) s =
    some (Step.go (subscribe (topic user) s) (Event.channel_group_join id user) nothing)
react outside (Event.channel_group_leave id user) s =
    on_group_leave id user (Event.channel_group_leave id user) s
react outside (Event.server_create id server channels) s =
    on_server_create id server channels (Event.server_create id server channels) s
react outside (Event.server_update id change touched) s =
    on_server_update id change touched (Event.server_update id change touched) s
react outside (Event.server_member_join id user) s =
    some (Step.go s (Event.server_member_join id user) nothing)
react outside (Event.server_member_leave id user) s =
    on_member_leave id user (Event.server_member_leave id user) s
react outside (Event.server_delete id) s = go_on (Event.server_delete id) (drop_server id s)
react outside (Event.server_member_update id change touched) s =
    on_member_update id change touched (Event.server_member_update id change touched) s
react outside (Event.server_role_update id role_id change touched) s =
    on_role_update id role_id change touched (Event.server_role_update id role_id change touched) s
react outside (Event.server_role_delete id role_id) s =
    on_role_delete id role_id (Event.server_role_delete id role_id) s
react outside (Event.user_update event_id) s = on_user_update outside event_id s
react outside (Event.user_relationship id user) s =
    on_relationship id user (Event.user_relationship id user) s
react outside (Event.message author relationship) s = on_message author relationship s
react outside Event.other s = some (Step.go s Event.other nothing)
