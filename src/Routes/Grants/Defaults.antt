-- ===== src/Routes/Grants/Defaults.antt =====
-- Who may set the default permissions of a server, and to what.
use company_backend.Prelude.{
  ℕ, ◌^◌, ◌<◌, ◌≡◌, refl, ◌∙◌, sym, ◌⊎◌, inl, inr, true, none, some, arith,
}
use company_backend.Prelude.HashMap
use company_backend.Prelude.HashMap.{get}
use company_backend.Prelude.Bits.{test_bit}
use company_backend.Prelude.Int.{ℤ, as_i64}
use company_backend.Models.{User, Server}
use company_backend.Permissions.Flags.{ChannelPermission}
use company_backend.Permissions.Override.{Override}
use company_backend.Permissions.Value.{throw_permission_override}
use company_backend.Permissions.Value.Laws.{throw_permission_override_iff}
use company_backend.DatabaseQuery.Ranks.{IsServer}
use company_backend.Stores.Servers.{update_server, change_server}
use company_backend.Result.{Result, ok, IsOk}
use company_backend.Routes.World.{World, Services, on_servers}
use company_backend.Routes.Standing.{may, calculation, throw-may}
use company_backend.Routes.Responds.{
  Responds, Responds-bind, Responds-lift, Responds-if, quiet, sync_channels_quiet,
}
use company_backend.Routes.Grants.{only_defaults, set_default_server_permissions}

-- The derived `apply_options` sets the default permissions and nothing else.
abbrev pub SetsDefaults : Services → Type 0
SetsDefaults services =
    (z : ℤ) (server : Server)
    → services.apply_server (only_defaults z) server ≡ record server { default_permissions = z }

module _ (services : Services) (w : World) (user : User) (server : Server) (permissions : ℕ) where
  -- The caller holds ManagePermissions and every flag of the new default.
  abbrev pub IsDefaultable : Type 0
  IsDefaultable =
      (may services w user server 2 ≡ true)
      × ((k : ℕ) → k < 64 → test_bit permissions k ≡ true → may services w user server k ≡ true)

  abbrev pub defaulted : World
  defaulted = record w {
    servers =
        HashMap.insert server.id (record server { default_permissions = as_i64 permissions })
          w.servers;
  }

  abbrev pub Defaults : World → Result Server → Type 0
  Defaults w' r =
      (IsDefaultable × (quiet w' ≡ quiet defaulted)) ⊎ ((¬ IsDefaultable) × (w' ≡ w) × (¬ IsOk r))

  stored :
      SetsDefaults services
      → get server.id w.servers ≡ some server
      → on_servers
          (update_server server.id (services.apply_server (only_defaults (as_i64 permissions))))
          w
        ≡ some (defaulted, ok tt)
  unfolding update_server
  stored law found = rw (update_server, change_server, found, law (as_i64 permissions) server) refl

  -- For a stored server and a u64 set, where the derived `apply_options` sets just the default
  -- permissions given: `set_default_server_permissions` does not panic. If the caller holds
  -- ManagePermissions and every flag of the set, it becomes the server's default and nothing else
  -- in the stores changes; if not, nothing changes and the result is an error.
  pub set_default_iff :
      SetsDefaults services
      → IsServer (some server)
      → permissions < 2 ^ 64
      → get server.id w.servers ≡ some server
      → Responds Defaults (set_default_server_permissions services user server.id permissions w)
  unfolding set_default_server_permissions
  set_default_iff law valid small found =
      let (v, q, e, lt, flags, rank) = calculation services w user server valid in
      let next : Override = record { allow = permissions; deny = 0 } in
      let throws = throw_permission_override_iff v none next lt tt (small, omega arith) in
      rw (found, e)
        (Responds-if Defaults _ w _ (may services w user server 2) _
          (throw-may services w user server v ChannelPermission.manage_permissions 2 lt flags
            (omega arith) refl (omega arith))
          (λ no_flag. inr ((λ h. cc), refl, λ h. h))
          (λ flag.
            Responds-lift Defaults _ w (throw_permission_override v none next)
              (λ e p. inr ((λ h. cc (throws.1 (λ k l x. flags k l ∙ h.1 k l x), p)), refl, λ h. h))
              (λ a p. rw (stored law found) (
                Responds-bind Defaults _ (λ w' r. quiet w' ≡ quiet defaulted) _
                  (sync_channels_quiet services
                    (services.apply_server (only_defaults (as_i64 permissions)) server) none
                    server.channels defaulted)
                  (λ w' e s. inl ((flag, λ k l x. sym (flags k l) ∙ throws.0 p k l x), s))
                  (λ w' x s. inl ((flag, λ k l x. sym (flags k l) ∙ throws.0 p k l x), s))))))
