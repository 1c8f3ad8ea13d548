-- ===== src/BulkQuery.antt =====
-- crates/core/database/src/util/bulk_permissions.rs: the permissions of many members at once.
pub mod Loop
pub mod MemberValue
pub mod Agreement
use company_backend.Prelude.{
  ℕ, Ident, Bool, ◌||◌, Option, none, some, List, [], ◌∷◌, map, ◌==◌, if◌then◌else◌,
}
use company_backend.Prelude.HashMap.{HashMap, get, insert}
use company_backend.Prelude.Int.{as_u64}
use company_backend.Models.{User, Server, Member, Channel}
use company_backend.Permissions.Flags.{ChannelType, ChannelPermission, bits}
use company_backend.Permissions.Override.{Override, OverrideField, from_field}
use company_backend.Permissions.Value.{PermissionValue, apply, has_channel_permission}
use company_backend.Permissions.Calculate.{apply_all, time_out}
use company_backend.DatabaseQuery.State.{in_timeout}
use company_backend.DatabaseQuery.Roles.{sort_by_rank, server_roles, channel_roles, overrides_of}
use company_backend.DatabaseQuery.Methods.{channel_type, channel_default}

-- What the calculation reads of the database, an `Err` as `none`, and the clock.
pub record Database : Type 0 where
  pub fetch_users : List Ident → Option (List User)
  pub fetch_members : Ident → List Ident → Option (List Member)
  pub fetch_server : Ident → Option Server
  pub fetch_channel : Ident → Option Channel
  pub now : ℕ

pub record BulkDatabasePermissionQuery : Type 0 where
  pub database : Database
  pub server : Server
  pub channel : Option Channel
  pub users : Option (List User)
  pub members : Option (List Member)
  pub cached_users : Option (List User)
  pub cached_members : Option (List Member)
  pub cached_member_perms : Option (HashMap PermissionValue)

-- `BulkDatabasePermissionQuery::new`
unfoldable pub new : Database → Server → BulkDatabasePermissionQuery
new database server = record {
  database = database;
  server = server;
  channel = none;
  users = none;
  members = none;
  cached_users = none;
  cached_members = none;
  cached_member_perms = none;
}

-- `BulkDatabasePermissionQuery::from_server_id`; `unwrap` panics.
unfoldable pub from_server_id : Database → Ident → Option BulkDatabasePermissionQuery
unfolding new
from_server_id db id = elim (db.fetch_server id) [
  | none ↦ none
  | some server ↦ some (new db server)
]

-- The setters.
abbrev pub with_channel : Channel → BulkDatabasePermissionQuery → BulkDatabasePermissionQuery
with_channel c q = record q { channel = some c }

-- `from_channel_id`; `expect` panics.
unfoldable pub from_channel_id :
    Ident → BulkDatabasePermissionQuery → Option BulkDatabasePermissionQuery
from_channel_id id q = elim (q.database.fetch_channel id) [
  | none ↦ none
  | some c ↦ some (with_channel c q)
]

abbrev pub with_members : List Member → BulkDatabasePermissionQuery → BulkDatabasePermissionQuery
with_members ms q = record q {
  members = some ms;
  cached_member_perms = none;
  users = none;
  cached_members = none;
  cached_users = none;
}

abbrev pub with_users : List User → BulkDatabasePermissionQuery → BulkDatabasePermissionQuery
with_users us q = record q {
  users = some us;
  cached_member_perms = none;
  members = none;
  cached_members = none;
  cached_users = none;
}

-- `calculate_server_permissions` of the bulk query.
unfoldable pub calculate_server_permissions : ℕ → Server → User → Member → PermissionValue
calculate_server_permissions now server user member =
    if user.privileged || server.owner == user.id
    then bits ChannelPermission.grant_all_safe
    else time_out (in_timeout now member) (
        apply_all (as_u64 server.default_permissions)
          (overrides_of (sort_by_rank (server_roles member.roles server.roles))))

-- `if let Some(defaults) = channel_default_permissions { permission.apply(defaults.into()) }`
abbrev pub apply_default : Option OverrideField → PermissionValue → PermissionValue
apply_default none v = v
apply_default (some defaults) v = apply v (from_field defaults)

-- The body of the loop, for a user with the given member object.
unfoldable pub member_permission :
    ℕ
    → Server
    → Option OverrideField
    → HashMap OverrideField
    → User
    → Option Member
    → PermissionValue
unfolding calculate_server_permissions
member_permission now server defaults role_permissions user none = 0
member_permission now server defaults role_permissions user (some member) =
    if user.privileged
    then bits ChannelPermission.grant_all_safe
    else if user.id == server.owner
    then bits ChannelPermission.grant_all_safe
    else apply_all (apply_default defaults (calculate_server_permissions now server user member))
        (overrides_of (sort_by_rank (channel_roles member.roles server.roles role_permissions)))

-- `HashMap::from_iter`: of two members with one user, the later one stays.
unfoldable pub index_members : List Member → HashMap Member → HashMap Member
index_members [] index = index
index_members (m ∷ ms) index = index_members ms (insert m.id.user m index)

-- `for user in users { … resp.insert(user.id, permission) }`
unfoldable pub fill :
    (User → PermissionValue) → List User → HashMap PermissionValue → HashMap PermissionValue
fill value [] resp = resp
fill value (user ∷ users) resp = fill value users (insert user.id (value user) resp)

-- The users and the members, each fetched by the others if it is not there.
unfoldable pub load_users : BulkDatabasePermissionQuery → Option BulkDatabasePermissionQuery
load_users q = elim q.users [
  | some users ↦ some q
  | none ↦ elim q.members [
    | none ↦ none
    | some members ↦ elim (q.database.fetch_users (map (λ m. m.id.user) members)) [
      | none ↦ none
      | some users ↦ some (record q { cached_users = some users; users = some users })
    ]
  ]
]

unfoldable pub load_members : BulkDatabasePermissionQuery → Option BulkDatabasePermissionQuery
load_members q = elim q.members [
  | some members ↦ some q
  | none ↦ elim q.users [
    | none ↦ none
    | some users ↦ elim (q.database.fetch_members q.server.id (map (λ u. u.id) users)) [
      | none ↦ none
      | some members ↦ some (record q { cached_members = some members; members = some members })
    ]
  ]
]

abbrev pub or_empty {ℓ} : {A : Type ℓ} → Option (List A) → List A
or_empty none = []
or_empty (some xs) = xs

unfoldable pub permissions_of :
    BulkDatabasePermissionQuery
    → Option OverrideField
    → HashMap OverrideField
    → HashMap PermissionValue
unfolding fill index_members member_permission
permissions_of q defaults role_permissions =
    let members = index_members (or_empty q.members) [] in
    fill
      (λ user.
        member_permission q.database.now q.server defaults role_permissions user
          (get user.id members))
      (or_empty q.users) []

infixl 5 ◌>>=◌
abbrev ◌>>=◌ : {A B : Type 0} → Option A → (A → Option B) → Option B
none >>= f = none
some a >>= f = f a

unfoldable pub load : BulkDatabasePermissionQuery → Option BulkDatabasePermissionQuery
unfolding load_users load_members
load q = load_users q >>= load_members

-- `calculate_members_permissions`: `none` is a panic.
unfoldable pub calculate_members_permissions :
    BulkDatabasePermissionQuery → Option (HashMap PermissionValue × BulkDatabasePermissionQuery)
unfolding load permissions_of
calculate_members_permissions q = elim q.channel [
  | some (Channel.text_channel id server defaults role_permissions) ↦
      load q >>= λ q'. some (permissions_of q' defaults role_permissions, q')
  | _ ↦ none
]

unfoldable pub visible : HashMap PermissionValue → HashMap Bool
visible [] = []
visible ((id, p) ∷ rest) =
    (id, has_channel_permission p ChannelPermission.view_channel) ∷ visible rest

-- `members_can_see_channel`
unfoldable pub members_can_see_channel :
    BulkDatabasePermissionQuery → Option (HashMap Bool × BulkDatabasePermissionQuery)
unfolding calculate_members_permissions visible
members_can_see_channel q = elim q.cached_member_perms [
  | some perms ↦ some (visible perms, q)
  | none ↦ calculate_members_permissions q >>= λ r. some (visible r.0, r.1)
]

-- `get_default_channel_permissions` and `get_channel_type` are those of the single query.
abbrev pub get_default_channel_permissions : BulkDatabasePermissionQuery → Override
get_default_channel_permissions q = channel_default q.channel

abbrev pub get_channel_type : BulkDatabasePermissionQuery → ChannelType
get_channel_type q = channel_type q.channel

-- `get_channel_role_overrides`: `none` is a panic.
abbrev pub get_channel_role_overrides : BulkDatabasePermissionQuery → Option (HashMap OverrideField)
get_channel_role_overrides q = elim q.channel [
  | some (Channel.text_channel id server defaults role_permissions) ↦ some role_permissions
  | _ ↦ none
]
