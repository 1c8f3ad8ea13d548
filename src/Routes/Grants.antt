-- ===== src/Routes/Grants.antt =====
-- permissions_set.rs and permissions_set_default.rs of crates/delta/src/routes/servers.
pub mod Escalation
pub mod Defaults
use company_backend.Prelude.{ℕ, Ident, Option, none, some}
use company_backend.Prelude.HashMap
use company_backend.Prelude.HashMap.{get}
use company_backend.Prelude.Int.{ℤ, leb_ℤ, as_i64}
use company_backend.Models.{User, Role, Server}
use company_backend.Permissions.Flags.{ChannelPermission}
use company_backend.Permissions.Override.{Override, OverrideField, from_field, to_field}
use company_backend.Permissions.Value.{
  throw_if_lacking_channel_permission, throw_permission_override,
}
use company_backend.Stores.Servers.{update_role, update_server, with_roles}
use company_backend.Result.{Error, ok, Done}
use company_backend.Routes.World.{
  PartialRole, PartialServer, Services, Route, lift, ask, or_else, ◌>>=◌, ◌>>◌, refuse_if,
  on_servers, as_server, sync_channels,
}
use company_backend.Routes.Roles.{update}
use company_backend.Routes.Ranking.{get_member_rank, or_min, calculate}

abbrev pub only_permissions : OverrideField → PartialRole
only_permissions p = record {
  name = none;
  permissions = some p;
  colour = none;
  hoist = none;
  rank = none;
}

abbrev pub only_defaults : ℤ → PartialServer
only_defaults z = record { roles = none; default_permissions = some z }

module _ (services : Services) where
  -- `Server::set_role_permission`: the server after it.
  unfoldable pub set_role_permission_of : Server → Ident → OverrideField → Route Server
  set_role_permission_of server role_id permissions =
      lift (or_else (get role_id server.roles) Error.not_found) >>= λ role.
      update server.id (services.apply_role (only_permissions permissions)) role >>= λ changed.
      lift (ok (with_roles (HashMap.insert role_id changed) server))

  -- permissions_set.rs
  unfoldable pub set_role_permission : User → (target role_id : Ident) → Override → Route Server
  unfolding get_member_rank set_role_permission_of to_field from_field sync_channels
  set_role_permission user target role_id permissions = do
    server ← as_server target
    role ← lift (or_else (get role_id server.roles) Error.not_found)
    (value, query) ← calculate services user server
    lift (throw_if_lacking_channel_permission value ChannelPermission.manage_permissions)
    rank ← ask (get_member_rank query)
    refuse_if (leb_ℤ role.rank (or_min rank)) Error.not_elevated
    lift (throw_permission_override value (some (from_field role.permissions)) permissions)
    changed ← set_role_permission_of server role_id (to_field permissions)
    sync_channels services changed (some role_id) server.channels
    lift (ok changed)

  -- permissions_set_default.rs, of a u64 `permissions`
  unfoldable pub set_default_server_permissions : User → (target : Ident) → ℕ → Route Server
  unfolding update_server sync_channels
  set_default_server_permissions user target permissions = do
    server ← as_server target
    (value, query) ← calculate services user server
    lift (throw_if_lacking_channel_permission value ChannelPermission.manage_permissions)
    lift (throw_permission_override value none (record { allow = permissions; deny = 0 }))
    let change : Server → Server = services.apply_server (only_defaults (as_i64 permissions))
    on_servers (update_server server.id change)
    sync_channels services (change server) none server.channels
    lift (ok (change server))
