-- ===== src/Routes/Grants/Escalation.antt =====
-- Who may set the permissions of a role of a server, and to what.
use company_backend.Prelude.{ℕ, ◌<◌, ◌≡◌, refl, ◌∙◌, sym, ◌⊎◌, inl, inr, true, false, some, arith}
use company_backend.Prelude.HashMap.{get, insert}
use company_backend.Prelude.Int.{leb_ℤ}
use company_backend.Models.{User, Role, Server}
use company_backend.Permissions.Flags.{ChannelPermission}
use company_backend.Permissions.Override.{
  Override, OverrideField, from_field, to_field, IsU64, IsField, from_field-IsU64,
}
use company_backend.Permissions.Value.{throw_permission_override}
use company_backend.Permissions.Value.Laws.{widens, throw_permission_override_iff}
use company_backend.DatabaseQuery.Ranks.{IsServer}
use company_backend.Stores.Servers.{update_role, with_roles}
use company_backend.Result.{Error, Result, IsOk}
use company_backend.Routes.World.{World, Services}
use company_backend.Routes.Roles.{update_lem}
use company_backend.Routes.Ranking.{or_min}
use company_backend.Routes.Standing.{may, our_rank, calculation, throw-may}
use company_backend.Routes.Responds.{
  Responds, Responds-bind, Responds-lift, Responds-if, Responds-refuse, quiet, sync_channels_quiet,
}
use company_backend.Routes.Grants.{only_permissions, set_role_permission_of, set_role_permission}

-- The derived `apply_options` sets the permissions and nothing else.
abbrev pub SetsPermissions : Services → Type 0
SetsPermissions services =
    (p : OverrideField) (role : Role)
    → services.apply_role (only_permissions p) role ≡ record role { permissions = p }

module _ (services : Services) (w : World) (user : User) (server : Server) (role : Role)
    (next : Override) where
  -- The user holds ManagePermissions and every flag that the change widens, and the role ranks
  -- strictly below the user.
  abbrev pub IsGrantable : Type 0
  IsGrantable =
      (may services w user server 2 ≡ true)
      × (leb_ℤ role.rank (or_min (our_rank services w user server)) ≡ false)
      × ((k : ℕ)
          → k < 64
          → widens (some (from_field role.permissions)) next k ≡ true
          → may services w user server k ≡ true)

  abbrev pub granted : World
  granted = record w {
    servers =
        insert server.id
          (with_roles (insert role.id (record role { permissions = to_field next })) server)
          w.servers;
  }

  -- The change is made if it may be, and else the world stays and the result is an error.
  abbrev pub Grants : World → Result Server → Type 0
  Grants w' r =
      (IsGrantable × (quiet w' ≡ quiet granted)) ⊎ ((¬ IsGrantable) × (w' ≡ w) × (¬ IsOk r))

  -- For a stored server and a role of it, with sets in the ranges of their types, and where the
  -- derived `apply_options` sets just the permissions given: `set_role_permission` does not panic.
  -- If the caller holds ManagePermissions and every flag that the change grants anew or no longer
  -- denies, and the role ranks strictly below the caller, the stored role gets the new permissions
  -- and nothing else in the stores changes; if not, nothing changes and the result is an error.
  pub set_role_permission_iff :
      SetsPermissions services
      → IsServer (some server)
      → IsField role.permissions
      → IsU64 next
      → get server.id w.servers ≡ some server
      → get role.id server.roles ≡ some role
      → Responds Grants (set_role_permission services user server.id role.id next w)
  unfolding set_role_permission set_role_permission_of update_role
  set_role_permission_iff law valid field u64 found held =
      let (v, q, e, lt, flags, rank) = calculation services w user server valid in
      let throws =
        throw_permission_override_iff v (some (from_field role.permissions)) next lt
          (from_field-IsU64 role.permissions field) u64 in
      rw (found, held, e)
        (Responds-if Grants _ w _ (may services w user server 2) _
          (throw-may services w user server v ChannelPermission.manage_permissions 2 lt flags
            (omega arith) refl (omega arith))
          (λ no_flag. inr ((λ h. cc), refl, λ h. h))
          (λ flag. rw rank (
            Responds-refuse Grants _ w (leb_ℤ role.rank (or_min (our_rank services w user server)))
              Error.not_elevated (λ above. inr ((λ h. cc), refl, λ h. h))
              (λ below.
                Responds-lift Grants _ w
                  (throw_permission_override v (some (from_field role.permissions)) next)
                  (λ no p.
                    inr ((λ h. cc (throws.1 (λ k l x. flags k l ∙ h.2 k l x), p)), refl, λ h. h))
                  (λ a p.
                    rw
                      (
                        update_lem (services.apply_role (only_permissions (to_field next))) role
                            role server w found held,
                        law (to_field next) role,
                      )
                      (Responds-bind Grants _ (λ w' r. quiet w' ≡ quiet granted) _
                        (sync_channels_quiet services
                          (with_roles (insert role.id (record role { permissions = to_field next }))
                            server)
                          (some role.id) server.channels granted)
                        (λ w' e s.
                          inl ((flag, below, λ k l x. sym (flags k l) ∙ throws.0 p k l x), s))
                        (λ w' x s.
                          inl ((flag, below, λ k l x. sym (flags k l) ∙ throws.0 p k l x), s))))))))
