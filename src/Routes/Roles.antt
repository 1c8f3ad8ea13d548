-- ===== src/Routes/Roles.antt =====
-- The operations of `Role` (crates/core/database/src/models/servers/model.rs), and
-- roles_create.rs, roles_edit.rs and roles_delete.rs of crates/delta/src/routes/servers.
pub mod Guarded
pub mod Creation
use company_backend.Prelude.{
  ℕ, Ident, Bool, false, not, Option, none, some, List, [], ◌∷◌, length, leb, ◌≡◌, refl,
}
use company_backend.Prelude.HashMap
use company_backend.Prelude.HashMap.{get, remove}
use company_backend.Prelude.Int.{ℤ, leb_ℤ, as_i64}
use company_backend.Models.{User, Role, Server}
use company_backend.Permissions.Flags.{ChannelPermission}
use company_backend.Permissions.Override.{default_field}
use company_backend.Permissions.Value.{throw_if_lacking_channel_permission}
use company_backend.Stores.Servers.{insert_role, update_role, delete_role, with_roles}
use company_backend.Result.{Error, ok, Done}
use company_backend.Routes.World.{
  PartialRole, World, Services, Route, lift, ask, or_else, ◌>>=◌, ◌>>◌, refuse_if, on_servers,
  as_server, sync_channels,
}
use company_backend.Routes.Ranking.{get_member_rank, or_min, calculate}

pub data FieldsRole : Type 0 where
  colour : FieldsRole

-- `Role::remove_field`
unfoldable pub remove_field : FieldsRole → Role → Role
remove_field FieldsRole.colour role = record role { colour = none }

-- `for field in &remove { self.remove_field(field); }`
unfoldable pub remove_fields : List FieldsRole → Role → Role
unfolding remove_field
remove_fields [] role = role
remove_fields (field ∷ fields) role = remove_fields fields (remove_field field role)

-- `Role::update`, with what it makes of a row: the role after it.
abbrev pub update : (server_id : Ident) → (Role → Role) → Role → Route Role
update server_id change role =
    on_servers (update_role server_id role.id change) >> lift (ok (change role))

-- `Role::create`, with the id that `Ulid::new` gives.
unfoldable pub create_role : (ulid : Ident) → Server → (name : ℕ) → Route Role
unfolding insert_role as_i64
create_role ulid server name =
    let role : Role = record {
      id = ulid;
      name = name;
      permissions = default_field;
      colour = none;
      hoist = false;
      rank = as_i64 (length server.roles);
    } in
    on_servers (insert_role server.id role) >> lift (ok role)

-- `DataCreateRole`, `DataEditRole`: `is_valid` is what `validate` answers.
pub record DataCreateRole : Type 0 where
  pub name : ℕ
  pub is_valid : Bool

pub record DataEditRole : Type 0 where
  pub name : Option ℕ
  pub colour : Option ℕ
  pub hoist : Option Bool
  pub remove : List FieldsRole
  pub is_valid : Bool

abbrev pub edited : DataEditRole → PartialRole
edited body = record {
  name = body.name;
  permissions = none;
  colour = body.colour;
  hoist = body.hoist;
  rank = none;
}

module _ (services : Services) where
  -- roles_create.rs: `limit` is the limit on roles that the configuration has.
  unfoldable pub create :
      (limit : ℕ) (ulid : Ident) → User → (target : Ident) → DataCreateRole → Route Role
  unfolding create_role
  create limit ulid user target body = do
    refuse_if (not body.is_valid) Error.failed_validation
    server ← as_server target
    (value, query) ← calculate services user server
    lift (throw_if_lacking_channel_permission value ChannelPermission.manage_role)
    refuse_if (leb limit (length server.roles)) (Error.too_many_roles limit)
    create_role ulid server body.name

  -- roles_edit.rs: the handler takes the role out of its copy of the server before it is edited.
  unfoldable pub edit : User → (target role_id : Ident) → DataEditRole → Route Role
  unfolding get_member_rank remove_fields sync_channels
  edit user target role_id body = do
    refuse_if (not body.is_valid) Error.failed_validation
    server ← as_server target
    (value, query) ← calculate services user server
    lift (throw_if_lacking_channel_permission value ChannelPermission.manage_role)
    rank ← ask (get_member_rank query)
    role ← lift (or_else (get role_id server.roles) Error.not_found)
    refuse_if (leb_ℤ role.rank (or_min rank)) Error.not_elevated
    let change : Role → Role =
        λ row. services.apply_role (edited body) (remove_fields body.remove row)
    changed ← update server.id change role
    sync_channels services (with_roles (remove role_id) server) (some role_id) server.channels
    lift (ok changed)

  -- roles_delete.rs
  unfoldable pub delete : User → (target role_id : Ident) → Route Done
  unfolding get_member_rank delete_role sync_channels
  delete user target role_id = do
    server ← as_server target
    (value, query) ← calculate services user server
    lift (throw_if_lacking_channel_permission value ChannelPermission.manage_role)
    rank ← ask (get_member_rank query)
    role ← lift (or_else (get role_id server.roles) Error.not_found)
    refuse_if (leb_ℤ role.rank (or_min rank)) Error.not_elevated
    on_servers (delete_role server.id role.id)
    sync_channels services (with_roles (remove role_id) server) (some role_id) server.channels

-- `Role::update` of a role that the server has.
pub update_lem :
    (change : Role → Role) (role row : Role) (server : Server) (w : World)
    → get server.id w.servers ≡ some server
    → get role.id server.roles ≡ some row
    → update server.id change role w
      ≡ some (
        record w {
          servers =
              HashMap.insert server.id
                (with_roles (HashMap.insert role.id (change row)) server)
                w.servers;
        },
        ok (change role),
      )
unfolding update_role
update_lem change role row server w found held =
    rw (update_role, found, HashMap.contains_key, HashMap.update, held) refl
