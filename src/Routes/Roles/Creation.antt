-- ===== src/Routes/Roles/Creation.antt =====
-- Who may create a role, and what that does.
use company_backend.Prelude.{
  ℕ, ◌≡◌, refl, Ident, Bool, false, not, ◌&&◌, none, some, length, leb, arith,
}
use company_backend.Prelude.HashMap
use company_backend.Prelude.HashMap.{get}
use company_backend.Prelude.Int.{as_i64}
use company_backend.Models.{User, Role, Server}
use company_backend.Permissions.Flags.{ChannelPermission}
use company_backend.Permissions.Override.{default_field}
use company_backend.DatabaseQuery.Ranks.{IsServer}
use company_backend.Stores.Servers.{insert_role, change_server}
use company_backend.Result.{Error, ok}
use company_backend.Routes.World.{World, Services}
use company_backend.Routes.Standing.{may, calculation, throw-may}
use company_backend.Routes.Responds.{Responds, Responds-if, Responds-refuse}
use company_backend.Routes.Roles.{DataCreateRole, create_role, create}
use company_backend.Routes.Roles.Guarded.{with_stored, Makes, refused, made}

module _ (services : Services) (w : World) (user : User) (server : Server) where
  -- The body is valid, the caller holds ManageRole, and there are fewer roles than the limit.
  abbrev pub is_creatable : (limit : ℕ) → DataCreateRole → Bool
  is_creatable limit body =
      body.is_valid && may services w user server 3 && not (leb limit (length server.roles))

  abbrev pub new_role : (ulid : Ident) → DataCreateRole → Role
  new_role ulid body = record {
    id = ulid;
    name = body.name;
    permissions = default_field;
    colour = none;
    hoist = false;
    rank = as_i64 (length server.roles);
  }

  store_new :
      (ulid : Ident) (body : DataCreateRole)
      → get server.id w.servers ≡ some server
      → create_role ulid server body.name w
        ≡ some (
          with_stored services w user server (HashMap.insert ulid (new_role ulid body)),
          ok (new_role ulid body),
        )
  unfolding create_role insert_role
  store_new ulid body found = rw (create_role, insert_role, change_server, found) refl

  -- For a stored server, `create` does not panic. If the body is valid, the caller holds ManageRole
  -- and the server has fewer roles than the limit, the stored server gains a role without
  -- permissions whose rank is the number of the roles, and nothing else in the stores changes; if
  -- not, nothing changes and the result is an error.
  pub create_guarded :
      (limit : ℕ) (ulid : Ident) (body : DataCreateRole)
      → IsServer (some server)
      → get server.id w.servers ≡ some server
      → Responds
          (Makes services w user server
            (is_creatable limit body)
            (with_stored services w user server (HashMap.insert ulid (new_role ulid body))))
          (create services limit ulid user server.id body w)
  unfolding create
  create_guarded limit ulid body valid found =
      let changed : World =
        with_stored services w user server (HashMap.insert ulid (new_role ulid body)) in
      let allowed : Bool = is_creatable limit body in
      let (v, q, e, lt, flags, rank) = calculation services w user server valid in
      Responds-refuse (Makes services w user server allowed changed) _ w (not body.is_valid)
        Error.failed_validation
        (λ invalid.
          refused services w user server Role allowed changed Error.failed_validation
            (ground arith))
        (λ fine.
          rw (found, e)
            (Responds-if (Makes services w user server allowed changed) _ w _
              (may services w user server 3) _
              (throw-may services w user server v ChannelPermission.manage_role 3 lt flags
                (omega arith) refl (omega arith))
              (λ no_flag.
                refused services w user server Role allowed changed
                  (Error.missing_permission ChannelPermission.manage_role) (ground arith))
              (λ flag.
                Responds-refuse (Makes services w user server allowed changed) _ w
                  (leb limit (length server.roles)) (Error.too_many_roles limit)
                  (λ full.
                    refused services w user server Role allowed changed (Error.too_many_roles limit)
                      (ground arith))
                  (λ room. rw (store_new ulid body found) (
                    made services w user server allowed changed changed (ok (new_role ulid body))
                      (ground arith) refl)))))
