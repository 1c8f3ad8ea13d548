-- ===== src/Events/Cache.antt =====
-- `Cache` of crates/bonfire/src/events: what a connection knows, and what its user can see.
use company_backend.Prelude.{
  ℕ, Ident, Bool, true, false, Option, none, some, List, [], ◌∷◌, contains, ◌==◌, if◌then◌else◌,
}
use company_backend.Prelude.HashMap.{HashMap, get, values}
use company_backend.Models.{RelationshipStatus, User, Server, Member, Channel}
use company_backend.Permissions.Flags.{ChannelPermission}
use company_backend.Permissions.Value.{has_channel_permission}
use company_backend.Permissions.Calculate.{calculate_channel_permissions}
use company_backend.DatabaseQuery.State.{
  Database, DatabasePermissionQuery, new, with_channel, with_server, with_member,
}
use company_backend.DatabaseQuery.Methods.{query}
use company_backend.Users.{relationship_with}

-- `seen_events` holds the most recent events, by the crate lru.
pub record Cache : Type 0 where
  pub user_id : Ident
  pub is_bot : Bool
  pub users : HashMap User
  pub channels : HashMap Channel
  pub members : HashMap Member
  pub servers : HashMap Server
  pub seen_events : List Ident

-- What the event server asks of the database, an `Err` as `none`, and how the crate lru adds to
-- `seen_events`.
pub record Outside : Type 0 where
  pub database : Database
  pub fetch_channel : Ident → Option Channel
  pub fetch_channels : List Ident → Option (List Channel)
  pub put : Ident → List Ident → List Ident

-- `Channel::id` and `Channel::server`
abbrev pub channel_id : Channel → Ident
channel_id (Channel.saved_messages id user) = id
channel_id (Channel.direct_message id recipients) = id
channel_id (Channel.group id owner recipients permissions moderators) = id
channel_id (Channel.text_channel id server field permissions) = id

abbrev pub on_server : Ident → Channel → Bool
on_server id (Channel.text_channel _ server field permissions) = server == id
on_server id _ = false

abbrev pub maybe_member : Option Member → DatabasePermissionQuery → DatabasePermissionQuery
maybe_member none q = q
maybe_member (some member) q = with_member member q

abbrev pub maybe_server : Option Server → DatabasePermissionQuery → DatabasePermissionQuery
maybe_server none q = q
maybe_server (some server) q = with_server server q

-- The query of `can_view_channel`.
abbrev pub channel_query : Outside → Cache → Channel → Ident → User → DatabasePermissionQuery
channel_query outside cache channel server user =
    maybe_server (get server cache.servers)
      (maybe_member (get server cache.members) (with_channel channel (new outside.database user)))

abbrev pub grants_view : Option (ℕ × DatabasePermissionQuery) → Option Bool
grants_view none = none
grants_view (some (v, q)) = some (has_channel_permission v ChannelPermission.view_channel)

-- `Cache::can_view_channel`; `none` is a panic.
unfoldable pub can_view_channel : Outside → Cache → Channel → Option Bool
can_view_channel outside cache (Channel.text_channel id server field permissions) =
    elim (get cache.user_id cache.users) [
      | none ↦ none
      | some user ↦ grants_view (
          calculate_channel_permissions query (
            channel_query outside cache (Channel.text_channel id server field permissions) server
              user))
    ]
can_view_channel outside cache _ = some true

-- `Cache::filter_accessible_channels`
unfoldable pub filter_accessible_channels : Outside → Cache → List Channel → Option (List Channel)
filter_accessible_channels outside cache [] = some []
filter_accessible_channels outside cache (channel ∷ rest) =
    let others = filter_accessible_channels outside cache rest in
    elim (can_view_channel outside cache channel) [
      | none ↦ none
      | some true ↦ elim others [ none ↦ none | some cs ↦ some (channel ∷ cs) ]
      | some false ↦ others
    ]

abbrev pub takes_part : Ident → Channel → Bool
takes_part user (Channel.direct_message id recipients) = contains recipients user
takes_part user (Channel.group id owner recipients permissions moderators) =
    contains recipients user
takes_part user _ = false

abbrev pub any_with : Ident → List Channel → Bool
any_with user [] = false
any_with user (c ∷ cs) = if takes_part user c then true else any_with user cs

abbrev pub is_close : RelationshipStatus → Bool
is_close RelationshipStatus.friend = true
is_close RelationshipStatus.incoming = true
is_close RelationshipStatus.outgoing = true
is_close RelationshipStatus.user = true
is_close _ = false

-- `Cache::can_subscribe_to_user`
unfoldable pub can_subscribe_to_user : Cache → Ident → Bool
unfolding relationship_with
can_subscribe_to_user cache user_id = elim (get cache.user_id cache.users) [
  | none ↦ false
  | some user ↦
      if is_close (relationship_with user user_id)
      then true
      else any_with user_id (values cache.channels)
]
