-- ===== src/DatabaseQuery/Methods.antt =====
-- The methods of `impl PermissionQuery for DatabasePermissionQuery`.
use company_backend.Prelude.{
  ℕ, Ident, Bool, true, false, not, Option, none, some, List, [], contains, find?, ◌==◌,
  if◌then◌else◌,
}
use company_backend.Prelude.Int.{ℤ, as_u64, as_i64}
use company_backend.Models.{User, Server, Member, Channel}
use company_backend.Permissions.Flags.{ChannelType, default_permission_direct_message}
use company_backend.Permissions.Override.{
  Override, OverrideField, default, default_field, from_field,
}
use company_backend.Permissions.Query.{Ask, PermissionQuery, reads}
use company_backend.DatabaseQuery.State.{
  DatabasePermissionQuery, relationship, is_some, or_false, in_timeout,
}
use company_backend.DatabaseQuery.Roles.{
  overrides_of, sort_by_rank, member_roles, server_roles, channel_roles,
}

-- `get_our_server_role_overrides`, for a member with the roles `held`.
unfoldable pub server_overrides : Option Server → List Ident → List Override
server_overrides none held = []
server_overrides (some server) held = overrides_of (sort_by_rank (server_roles held server.roles))

-- `get_our_channel_role_overrides`
unfoldable pub channel_overrides : Option Channel → Option Server → List Ident → List Override
channel_overrides (some (Channel.text_channel id _ field role_permissions)) (some server) held =
    overrides_of (sort_by_rank (channel_roles held server.roles role_permissions))
channel_overrides _ _ held = []

-- `permissions.unwrap_or(*DEFAULT_PERMISSION_DIRECT_MESSAGE as i64) as u64`
abbrev pub group_allow : Option ℤ → ℕ
group_allow none = as_u64 (as_i64 default_permission_direct_message)
group_allow (some z) = as_u64 z

abbrev pub field_or_default : Option OverrideField → OverrideField
field_or_default none = default_field
field_or_default (some v) = v

abbrev pub channel_default : Option Channel → Override
channel_default (some (Channel.group id owner recipients permissions moderators)) = record {
  allow = group_allow permissions;
  deny = 0;
}
channel_default (some (Channel.text_channel id server field role_permissions)) =
    from_field (field_or_default field)
channel_default _ = default

abbrev pub we : DatabasePermissionQuery → Ident
we q = q.perspective.id

abbrev pub is_selected : DatabasePermissionQuery → Bool
is_selected q = elim q.user [ none ↦ false | some other ↦ we q == other.id ]

abbrev pub is_bot : Option User → Bool
is_bot none = false
is_bot (some user) = is_some user.bot

-- `have_mutual_connection`: the answer is cached; a fetch that fails counts as no.
unfoldable pub have_mutual_connection : Ask DatabasePermissionQuery Bool
have_mutual_connection q = elim q.cached_mutual_connection [
  | some value ↦ some (value, q)
  | none ↦ elim q.user [
    | none ↦ some (false, q)
    | some user ↦
        let value = or_false (q.database.has_mutual_connection (we q) user.id) in
        some (value, record q { cached_mutual_connection = some value })
  ]
]

abbrev pub owns_server : Option Server → Ident → Bool
owns_server none id = false
owns_server (some server) id = server.owner == id

-- `are_we_a_member` loads the member.
unfoldable pub are_we_a_member : Ask DatabasePermissionQuery Bool
are_we_a_member q = elim q.server [
  | none ↦ some (false, q)
  | some server ↦ elim q.member [
    | some member ↦ some (true, q)
    | none ↦ elim (q.database.fetch_member server.id (we q)) [
      | none ↦ some (false, q)
      | some member ↦ some (true, record q { member = some member })
    ]
  ]
]

abbrev pub server_default : Option Server → ℕ
server_default none = 0
server_default (some server) = as_u64 server.default_permissions

abbrev pub is_timed_out : ℕ → Option Member → Bool
is_timed_out now none = false
is_timed_out now (some member) = in_timeout now member

abbrev pub may_publish : Option Member → Bool
may_publish none = true
may_publish (some member) = member.can_publish

abbrev pub may_receive : Option Member → Bool
may_receive none = true
may_receive (some member) = member.can_receive

abbrev pub channel_type : Option Channel → ChannelType
channel_type none = ChannelType.unknown
channel_type (some (Channel.direct_message id recipients)) = ChannelType.direct_message
channel_type (some (Channel.group id owner recipients permissions moderators)) = ChannelType.group
channel_type (some (Channel.saved_messages id user)) = ChannelType.saved_messages
channel_type (some (Channel.text_channel id server field role_permissions)) =
    ChannelType.server_channel

abbrev pub owns_channel : Option Channel → Ident → Bool
owns_channel (some (Channel.group id owner recipients permissions moderators)) us = owner == us
owns_channel (some (Channel.saved_messages id user)) us = user == us
owns_channel _ us = false

abbrev pub moderates : Option Channel → Ident → Bool
moderates (some (Channel.group id owner recipients permissions moderators)) us =
    contains moderators us
moderates _ us = false

abbrev pub takes_part : Option Channel → Ident → Bool
takes_part (some (Channel.direct_message id recipients)) us = contains recipients us
takes_part (some (Channel.group id owner recipients permissions moderators)) us =
    contains recipients us
takes_part _ us = false

-- The user object stays if the fetch fails.
abbrev pub or_keep {ℓ} : {A : Type ℓ} → Option A → Option A → Option A
or_keep none old = old
or_keep (some new) old = some new

-- `set_recipient_as_user`; `expect("Missing recipient for DM")` panics.
unfoldable pub set_recipient_as_user : Ask DatabasePermissionQuery (Unit {0})
set_recipient_as_user q = elim q.channel [
  | none ↦ some (tt, q)
  | some (Channel.direct_message id recipients) ↦
      elim (find? (λ recipient. not (recipient == we q)) recipients) [
        | none ↦ none
        | some recipient ↦
            some (tt, record q { user = or_keep (q.database.fetch_user recipient) q.user })
      ]
  | some _ ↦ none
]

abbrev pub knows_server : Option Server → Ident → Bool
knows_server none id = false
knows_server (some server) id = id == server.id

-- `set_server_from_channel`
unfoldable pub set_server_from_channel : Ask DatabasePermissionQuery (Unit {0})
set_server_from_channel q = elim q.channel [
  | none ↦ some (tt, q)
  | some (Channel.text_channel id server field role_permissions) ↦
      if knows_server q.server server
      then some (tt, q)
      else some (tt, record q { server = or_keep (q.database.fetch_server server) q.server })
  | some _ ↦ none
]

abbrev pub query : PermissionQuery DatabasePermissionQuery
query = record {
  are_we_privileged = reads (λ q. q.perspective.privileged);
  are_we_a_bot = reads (λ q. is_some q.perspective.bot);
  are_the_users_same = reads is_selected;
  user_relationship = reads (λ q. relationship q.perspective q.user);
  user_is_bot = reads (λ q. is_bot q.user);
  have_mutual_connection = have_mutual_connection;
  are_we_server_owner = reads (λ q. owns_server q.server (we q));
  are_we_a_member = are_we_a_member;
  get_default_server_permissions = reads (λ q. server_default q.server);
  get_our_server_role_overrides = reads (λ q. server_overrides q.server (member_roles q.member));
  are_we_timed_out = reads (λ q. is_timed_out q.database.now q.member);
  do_we_have_publish_overwrites = reads (λ q. may_publish q.member);
  do_we_have_receive_overwrites = reads (λ q. may_receive q.member);
  get_channel_type = reads (λ q. channel_type q.channel);
  get_default_channel_permissions = reads (λ q. channel_default q.channel);
  get_our_channel_role_overrides =
      reads (λ q. channel_overrides q.channel q.server (member_roles q.member));
  do_we_own_the_channel = reads (λ q. owns_channel q.channel (we q));
  are_we_a_group_moderator = reads (λ q. moderates q.channel (we q));
  are_we_part_of_the_channel = reads (λ q. takes_part q.channel (we q));
  set_recipient_as_user = set_recipient_as_user;
  set_server_from_channel = set_server_from_channel;
}
