-- ===== src/Routes/Order/Accepted.antt =====
-- What `edit_role_ranks` accepts, and what it makes of it.
use company_backend.Prelude.{
  ◌≡◌, refl, ◌⊎◌, inl, inr, Ident, Bool, true, false, not, ◌&&◌, ◌||◌, none, some, List, [], ◌∷◌,
  contains, length, ◌==◌, ==_iff, ==_refl, if◌then◌else◌, arith, Bool-cases,
}
use mathlib.Core.List.{Perm}
use company_backend.Prelude.HashMap
use company_backend.Prelude.HashMap.{HashMap, get, IsUnique}
use company_backend.Models.{User, Role, Server}
use company_backend.Permissions.Flags.{ChannelPermission}
use company_backend.DatabaseQuery.Ranks.{IsServer}
use company_backend.Stores.Servers.{update_server, change_server}
use company_backend.Result.{Error, Result, ok, err, IsOk}
use company_backend.Routes.World.{World, Services, after, sync_channels, lift, ◌>>◌}
use company_backend.Routes.Standing.{may, our_rank, calculation, throw-may}
use company_backend.Routes.Responds.{
  Responds, Responds-bind, Responds-if, Responds-refuse, Responds-unless, Responds-map, quiet,
  sync_channels_quiet,
}
use company_backend.Routes.Order.{
  ordered_roles, ids_of, position, all_contained, any_moved, set_role_ordering, set_ranks,
  edit_role_ranks, only_roles,
}
use company_backend.Routes.Order.Protected.{
  IsProtected, IsAscending, ordered_roles_sorts, any_moved_sound, any_moved_complete,
  all_contained_sound, all_contained_complete,
}
use company_backend.Routes.Order.Positions.{listed_once, all_known, ranked_at, set_ranks_at}

-- The derived `apply_options` sets the roles and nothing else.
abbrev pub SetsRoles : Services → Type 0
SetsRoles services =
    (roles : HashMap Role) (server : Server)
    → services.apply_server (only_roles roles) server ≡ record server { roles = roles }

both : (a b : Bool) → a ≡ true → b ≡ true → (a && b) ≡ true
both a b h k = ground arith

or_right : (a b : Bool) → b ≡ true → (a || b) ≡ true
or_right a b h = ground arith

known-all :
    (ids ranks : List Ident) (roles : HashMap Role)
    → ((j : Ident) → contains ranks j ≡ true → HashMap.contains_key j roles ≡ true)
    → ((j : Ident) → contains ids j ≡ true → contains ranks j ≡ true)
    → all_known ids roles ≡ true
known-all [] ranks roles k s = refl
known-all (id ∷ ids) ranks roles k s =
    both _ _ (k id (s id (rw (==_refl id) refl)))
      (known-all ids ranks roles k (λ j h. s j (or_right (id == j) _ h)))

module _ (services : Services) (w : World) (user : User) (server : Server)
    (ranks : List Ident) where
  abbrev existing : List Ident
  existing = ids_of (ordered_roles server.roles)

  -- The tests of the handler.
  abbrev is_orderable : Bool
  is_orderable =
      may services w user server 3
      && length ranks == length server.roles
      && all_contained server.roles ranks
      && (server.owner == user.id
          || not (any_moved (our_rank services w user server) existing ranks server.roles))

  -- The world with the roles of the server replaced.
  abbrev pub reordered : HashMap Role → World
  reordered roles = record w {
    servers = HashMap.insert server.id (record server { roles = roles }) w.servers;
  }

  -- Each role has its position in the list for a rank, and nothing else is changed.
  abbrev pub Reorders : World → Type 0
  Reorders w' =
      (roles : HashMap Role) × (quiet w' ≡ quiet (reordered roles))
      × ((id : Ident) → get id roles ≡ ranked_at (position ranks id) (get id server.roles))

  abbrev Runs : World → Result Server → Type 0
  Runs w' r = if is_orderable then Reorders w' else (w' ≡ w) × (¬ IsOk r)

  -- In an order of the roles, a caller who does not own the server leaves the roles that are not
  -- below the caller where they stood.
  abbrev pub KeepsProtected : (existing : HashMap Role) → Type 0
  KeepsProtected existing =
      (id : Ident) (role : Role)
      → get id server.roles ≡ some role
      → IsProtected (our_rank services w user server) role
      → position (ids_of existing) id ≡ position ranks id

  -- The caller holds ManageRole, the list is as long as the roles and has each, and the caller owns
  -- the server or leaves the protected roles in place.
  abbrev pub IsOrderable : (existing : HashMap Role) → Type 0
  IsOrderable existing =
      (may services w user server 3 ≡ true)
      × (length ranks ≡ length server.roles)
      × ((id : Ident) (role : Role) → get id server.roles ≡ some role → contains ranks id ≡ true)
      × ((server.owner ≡ user.id) ⊎ KeepsProtected existing)

  abbrev pub Orders : (existing : HashMap Role) → World → Result Server → Type 0
  Orders existing w' r =
      (IsOrderable existing × Reorders w') ⊎ ((¬ IsOrderable existing) × (w' ≡ w) × (¬ IsOk r))

  ordering_with :
      SetsRoles services
      → get server.id w.servers ≡ some server
      → (roles : HashMap Role) → set_ranks 0 ranks server.roles ≡ some roles
      → set_role_ordering services server ranks w
        ≡ some (reordered roles, ok (record server { roles = roles }))
  unfolding set_role_ordering update_server
  ordering_with law found roles e =
      rw (set_role_ordering, e, update_server, change_server, found, law roles server) refl

  ordering_at :
      SetsRoles services
      → IsUnique server.roles
      → get server.id w.servers ≡ some server
      → all_contained server.roles ranks ≡ true
      → length ranks ≡ length server.roles
      → (roles : HashMap Role) × (set_role_ordering services server ranks w
          ≡ some (reordered roles, ok (record server { roles = roles })))
        × ((id : Ident) → get id roles ≡ ranked_at (position ranks id) (get id server.roles))
  ordering_at law unique found all len =
      let (distinct, known) = listed_once server.roles ranks unique all len in
      let (roles, e, at) =
        set_ranks_at 0 ranks server.roles distinct
          (known-all ranks ranks server.roles known (λ j h. h)) in
      (roles, ordering_with law found roles e, at)

  refused : (e : Error) → is_orderable ≡ false → Runs w (err e)
  refused e refusal = rw refusal (refl, λ h. h)

  changes :
      SetsRoles services
      → IsUnique server.roles
      → get server.id w.servers ≡ some server
      → is_orderable ≡ true
      → Responds Runs (
          after
            (set_role_ordering services server ranks w)
            (λ changed. sync_channels services changed none server.channels >> lift (ok changed)))
  changes law unique found good =
      let (roles, e, at) = ordering_at law unique found (ground arith) (ground arith) in
      rw e (
        Responds-bind Runs _ (λ w' r. quiet w' ≡ quiet (reordered roles)) _
          (sync_channels_quiet services (record server { roles = roles }) none server.channels
            (reordered roles))
          (λ w' e s. rw good (roles, s, at)) (λ w' x s. rw good (roles, s, at)))

  runs :
      SetsRoles services
      → IsServer (some server)
      → IsUnique server.roles
      → get server.id w.servers ≡ some server
      → Responds Runs (edit_role_ranks services user server.id ranks w)
  unfolding edit_role_ranks
  runs law valid unique found =
      let (v, q, e, lt, flags, rank) = calculation services w user server valid in
      rw (found, e)
        (Responds-if Runs _ w _ (may services w user server 3) _
          (throw-may services w user server v ChannelPermission.manage_role 3 lt flags (omega arith)
            refl (omega arith))
          (λ no_flag.
            refused (Error.missing_permission ChannelPermission.manage_role) (ground arith))
          (λ flag.
            Responds-refuse Runs _ w
              (not (length ranks == length server.roles) || not (all_contained server.roles ranks))
              Error.invalid_operation (λ bad. refused Error.invalid_operation (ground arith))
              (λ fits.
                Responds-unless Runs _ w (server.owner == user.id) _
                  (λ owns. changes law unique found (ground arith))
                  (λ other. rw rank (
                    Responds-refuse Runs _ w
                      (any_moved (our_rank services w user server) existing ranks server.roles)
                      Error.not_elevated (λ moved. refused Error.not_elevated (ground arith))
                      (λ still. changes law unique found (ground arith)))))))

  orderable : IsUnique server.roles → is_orderable ≡ true → IsOrderable (ordered_roles server.roles)
  orderable unique good = (
    ground arith,
    (==_iff (length ranks) (length server.roles)).0 (ground arith),
    λ id role. all_contained_sound server.roles ranks id role (ground arith),
    elim (Bool-cases (server.owner == user.id)) [
      | inl owns ↦ inl ((==_iff server.owner user.id).0 owns)
      | inr other ↦ inr (λ id role.
          any_moved_sound (our_rank services w user server) existing ranks server.roles id role
            (ground arith))
    ],
  )

  tests_owner :
      IsUnique server.roles
      → (server.owner ≡ user.id) ⊎ KeepsProtected (ordered_roles server.roles)
      → (server.owner == user.id
          || not (any_moved (our_rank services w user server) existing ranks server.roles))
        ≡ true
  tests_owner unique (inl owns) =
      let e : (server.owner == user.id) ≡ true = (==_iff server.owner user.id).1 owns in rw e refl
  tests_owner unique (inr keeps) =
      rw
        (any_moved_complete (our_rank services w user server) existing ranks server.roles unique
          keeps)
        (or_right _ true refl)

  tests : IsUnique server.roles → IsOrderable (ordered_roles server.roles) → is_orderable ≡ true
  tests unique (flag, len, all, keeps) =
      both _ _
        (both _ _ (both _ _ flag ((==_iff (length ranks) (length server.roles)).1 len))
          (all_contained_complete server.roles ranks unique all))
        (tests_owner unique keeps)

  -- For a stored server whose roles have distinct ids, and where the derived `apply_options` sets
  -- just the roles given: `edit_role_ranks` does not panic. There is an order of the server's roles
  -- by rising rank number such that: if the caller holds ManageRole, the list is as long as the
  -- roles and has each, and the caller owns the server or each role that does not rank strictly below
  -- the caller (for a caller without a rank, each role) has the same position in that order and in the
  -- list, then each role gets its position in the list for a rank and nothing else in the stores
  -- changes. If not, nothing changes and the result is an error.
  pub edit_role_ranks-Orders :
      SetsRoles services
      → IsServer (some server)
      → IsUnique server.roles
      → get server.id w.servers ≡ some server
      → (existing : HashMap Role) × IsAscending existing
        × Perm existing server.roles
        × Responds (Orders existing) (edit_role_ranks services user server.id ranks w)
  edit_role_ranks-Orders law valid unique found =
      let (ascending, same) = ordered_roles_sorts server.roles in
      (
        ordered_roles server.roles,
        ascending,
        same,
        Responds-map Runs (Orders (ordered_roles server.roles))
            (edit_role_ranks services user server.id ranks w)
            (λ w' r run. elim (Bool-cases is_orderable) [
              | inl good ↦ inl (orderable unique good, rw good at run)
              | inr bad ↦
                  let (same, never) = rw bad at run in inr (λ o. cc (tests unique o), same, never)
            ])
            (runs law valid unique found),
      )
