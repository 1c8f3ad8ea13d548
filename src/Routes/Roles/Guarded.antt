-- ===== src/Routes/Roles/Guarded.antt =====
-- Who may edit and delete a role, and what that does.
use company_backend.Prelude.{
  ℕ, ◌^◌, ◌<◌, ◌≡◌, refl, Bool, true, false, not, ◌&&◌, some, if◌then◌else◌, arith,
}
use company_backend.Prelude.HashMap
use company_backend.Prelude.HashMap.{get}
use company_backend.Prelude.Int.{leb_ℤ}
use company_backend.Models.{User, Role, Server}
use company_backend.Permissions.Flags.{ChannelPermission}
use company_backend.Permissions.Value.{throw_if_lacking_channel_permission}
use company_backend.Prelude.Bits.{test_bit}
use company_backend.DatabaseQuery.State.{DatabasePermissionQuery}
use company_backend.DatabaseQuery.Ranks.{IsServer}
use company_backend.Stores.Servers.{with_roles}
use company_backend.Result.{Error, Result, ok, err, IsOk}
use company_backend.Routes.World.{
  World, Services, Route, lift, ask, or_else, refuse_if, ◌>>=◌, ◌>>◌,
}
use company_backend.Routes.Ranking.{get_member_rank, or_min}
use company_backend.Routes.Standing.{may, our_rank, calculation, throw-may}
use company_backend.Routes.Responds.{
  Responds, Responds-bind, Responds-if, Responds-refuse, Responds-map, quiet, sync_channels_quiet,
}
use company_backend.Routes.Roles.{DataEditRole, edited, remove_fields, edit, update_lem}

module _ (services : Services) (w : World) (user : User) (server : Server) where
  -- The stored server with other roles.
  abbrev pub with_stored : (HashMap.HashMap Role → HashMap.HashMap Role) → World
  with_stored change = record w {
    servers = HashMap.insert server.id (with_roles change server) w.servers;
  }

  -- The change is made if the test holds, and else the world stays and the result is an error.
  abbrev pub Makes : {A : Type 0} → Bool → World → World → Result A → Type 0
  Makes allowed changed w' r = if allowed then quiet w' ≡ quiet changed else (w' ≡ w) × (¬ IsOk r)

  pub refused :
      (A : Type 0) (allowed : Bool) (changed : World) (e : Error)
      → allowed ≡ false
      → Makes {A = A} allowed changed w (err e)
  refused A allowed changed e no_right = rw no_right (refl, λ h. h)

  pub made :
      {A : Type 0} (allowed : Bool) (changed w' : World) (r : Result A)
      → allowed ≡ true
      → quiet w' ≡ quiet changed
      → Makes allowed changed w' r
  made allowed changed w' r right q = rw right q

  module _ (role : Role) where
    -- The caller holds ManageRole, and the role ranks strictly below the caller.
    abbrev pub is_manageable : Bool
    is_manageable =
        may services w user server 3
        && not (leb_ℤ role.rank (or_min (our_rank services w user server)))

    -- The role after an edit.
    abbrev pub edited_role : DataEditRole → Role
    edited_role body = services.apply_role (edited body) (remove_fields body.remove role)

    module _ (valid : IsServer (some server)) (found : get server.id w.servers ≡ some server)
        (held : get role.id server.roles ≡ some role) where
      guarded :
          (A : Type 0) (changed : World) (k : Role → Route A) (v : ℕ) (q : DatabasePermissionQuery)
          → v < 2 ^ 64
          → ((k : ℕ) → k < 64 → test_bit v k ≡ may services w user server k)
          → get_member_rank q ≡ some (our_rank services w user server)
          → (is_manageable ≡ true → Responds (Makes is_manageable changed) (k role w))
          → Responds (Makes is_manageable changed) (
              (do
                lift (throw_if_lacking_channel_permission v ChannelPermission.manage_role)
                rank ← ask (get_member_rank q)
                row ← lift (or_else (get role.id server.roles) Error.not_found)
                refuse_if (leb_ℤ row.rank (or_min rank)) Error.not_elevated
                k row)
                w)
      guarded A changed k v q lt flags rank go =
          Responds-if (Makes is_manageable changed) _ w _ (may services w user server 3) _
            (throw-may services w user server v ChannelPermission.manage_role 3 lt flags
              (omega arith) refl (omega arith))
            (λ no_flag.
              refused A is_manageable changed
                (Error.missing_permission ChannelPermission.manage_role) (ground arith))
            (λ flag.
              rw (rank, held)
                (Responds-refuse (Makes is_manageable changed) _ w
                  (leb_ℤ role.rank (or_min (our_rank services w user server))) Error.not_elevated
                  (λ above. refused A is_manageable changed Error.not_elevated (ground arith))
                  (λ below. go (ground arith))))

      narrowed :
          {A : Type 0} (changed : World) (valid_body : Bool)
          → not valid_body ≡ false
          → (w' : World) (r : Result A) → Makes is_manageable changed w' r
          → Makes (valid_body && is_manageable) changed w' r
      narrowed changed true fine w' r h = h
      narrowed changed false fine w' r h = cc

      -- For a stored server and a role of it, `edit` does not panic. If the body is valid, the caller
      -- holds ManageRole and the role ranks strictly below the caller, the stored role becomes what
      -- the removals and the body make of it and nothing else in the stores changes; if not, nothing
      -- changes and the result is an error.
      pub edit_guarded :
          (body : DataEditRole)
          → Responds
              (Makes
                (body.is_valid && is_manageable)
                (with_stored (HashMap.insert role.id (edited_role body))))
              (edit services user server.id role.id body w)
      unfolding edit
      edit_guarded body =
          let changed : World = with_stored (HashMap.insert role.id (edited_role body)) in
          let (v, q, e, lt, flags, rank) = calculation services w user server valid in
          Responds-refuse (Makes (body.is_valid && is_manageable) changed) _ w (not body.is_valid)
            Error.failed_validation
            (λ invalid.
              refused Role (body.is_valid && is_manageable) changed Error.failed_validation
                (ground arith))
            (λ fine.
              rw (found, e)
                (Responds-map _ _ _ (λ w' r. narrowed changed body.is_valid fine w' r)
                  (guarded _ changed _ v q lt flags rank (λ right.
                    rw
                      (update_lem
                        (λ row. services.apply_role (edited body) (remove_fields body.remove row))
                        role role server w found held)
                      (Responds-bind (Makes is_manageable changed) _
                        (λ w' r. quiet w' ≡ quiet changed) _
                        (sync_channels_quiet services (with_roles (HashMap.remove role.id) server)
                          (some role.id) server.channels changed)
                        (λ w' e s. made {A = Role} is_manageable changed w' (err e) right s)
                        (λ w' x s.
                          made is_manageable changed w' (ok (edited_role body)) right s))))))
