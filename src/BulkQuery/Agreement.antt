-- ===== src/BulkQuery/Agreement.antt =====
-- The bulk calculation against the calculation for one user.
use mathlib.Core.Path.{subst}
use company_backend.Prelude.{
  ℕ, Ident, ◌^◌, ◌<◌, ◌≡◌, refl, sym, ap, [], ◌∙◌, true, false, ◌||◌, Option, none, some, arith,
  Bool-cases, inl, inr, ◌==◌, ==_refl,
}
use company_backend.Prelude.Bits.{test_bit}
use company_backend.Prelude.HashMap.{HashMap, get}
use company_backend.Models.{User, Server, Member, Channel}
use company_backend.Permissions.Flags.{ChannelPermission, bits}
use company_backend.Permissions.FlagBits.{has-view_channel, test_bit-grant_all_safe}
use company_backend.Permissions.Override.{OverrideField}
use company_backend.Permissions.Value.{has_channel_permission}
use company_backend.Permissions.Calculate.{calculate_channel_permissions}
use company_backend.Permissions.Query.{Returns, Returns-map}
use company_backend.DatabaseQuery.State.{Database, DatabasePermissionQuery}
use company_backend.DatabaseQuery.Methods.{query}
use company_backend.DatabaseQuery.Ranks.{IsServer, IsChannel}
use company_backend.DatabaseQuery.ChannelFlags.{
  at_server, channel_flag, channel_permissions_flags, open_flag,
}
use company_backend.BulkQuery.{
  BulkDatabasePermissionQuery, member_permission, permissions_of, index_members, load, visible,
  or_empty, calculate_members_permissions, members_can_see_channel,
}
use company_backend.BulkQuery.Loop.{
  valued, last_user, last_member, get-index_members, get-fill, get-visible,
}
use company_backend.BulkQuery.MemberValue.{bulk-lt, bulk_view}

-- The query for one user of the server, with the rows at hand.
abbrev pub single : Database → User → Channel → Server → Member → DatabasePermissionQuery
single database user c server m = record {
  database = database;
  perspective = user;
  user = none;
  channel = some c;
  server = some server;
  member = some m;
  cached_mutual_connection = none;
}

load_keeps :
    (b b' : BulkDatabasePermissionQuery)
    → load b ≡ some b'
    → (b'.server ≡ b.server) × (b'.database ≡ b.database)
unfolding load
load_keeps b b' h = ground arith

module _ (b : BulkDatabasePermissionQuery) (database : Database) (id : Ident)
    (field : Option OverrideField) (permissions : HashMap OverrideField) where
  abbrev pub here : Channel
  here = Channel.text_channel id b.server.id field permissions

  abbrev pub asks : User → Member → DatabasePermissionQuery
  asks user m = single database user here b.server m

  at_here : (user : User) (m : Member) → at_server (asks user m) b.server.id ≡ asks user m
  at_here user m = rw (==_refl b.server.id) refl

  above_view :
      (user : User) (m : Member)
      → (user.privileged || b.server.owner == user.id) ≡ true
      → member_permission b.database.now b.server field permissions user (some m)
        ≡ bits ChannelPermission.grant_all_safe
  unfolding member_permission
  above_view user m h = ground arith

  one_above :
      (user : User) (m : Member)
      → (user.privileged || b.server.owner == user.id) ≡ true
      → channel_flag (asks user m) b.server.id 20 ≡ true
  one_above user m h = ground (arith, at_here user m)

  one_below :
      (user : User) (m : Member)
      → (user.privileged || b.server.owner == user.id) ≡ false
      → channel_flag (asks user m) b.server.id 20
        ≡ open_flag (some here) (some b.server) database.now m 20
  one_below user m h = ground (arith, at_here user m)

  -- What the calculation for one user says of `ViewChannel`.
  one_view :
      (user : User) (m : Member)
      → IsServer (some b.server)
      → IsChannel (some here)
      → b.database.now ≡ database.now
      → channel_flag (asks user m) b.server.id 20
        ≡ test_bit (member_permission b.database.now b.server field permissions user (some m)) 20
  one_view user m gs gc clock = elim (Bool-cases (user.privileged || b.server.owner == user.id)) [
    | inl above ↦
        rw (one_above user m above, above_view user m above)
          (sym (test_bit-grant_all_safe 20 (omega arith)))
    | inr below ↦
        rw (one_below user m below, ← clock)
          (sym
            (bulk_view b.database.now b.server id b.server.id permissions user m below gs field gc))
  ]

  permission-lt :
      (user : User) (m : Member)
      → IsServer (some b.server)
      → IsChannel (some here)
      → member_permission b.database.now b.server field permissions user (some m) < 2 ^ 64
  permission-lt user m gs gc = elim (Bool-cases (user.privileged || b.server.owner == user.id)) [
    | inl above ↦ rw (above_view user m above) (omega arith)
    | inr below ↦
        bulk-lt b.database.now b.server id b.server.id permissions user m below gs field gc
  ]

  loaded_permissions :
      (b' : BulkDatabasePermissionQuery)
      → b.channel ≡ some here
      → b.cached_member_perms ≡ none
      → load b ≡ some b'
      → members_can_see_channel b ≡ some (visible (permissions_of b' field permissions), b')
  unfolding members_can_see_channel calculate_members_permissions
  loaded_permissions b' chan fresh loaded = ground arith

  one_permission :
      (b' : BulkDatabasePermissionQuery) (user : User) (m : Member)
      → load b ≡ some b'
      → last_user user.id (or_empty b'.users) none ≡ some user
      → last_member user.id (or_empty b'.members) none ≡ some m
      → get user.id (permissions_of b' field permissions)
        ≡ some (member_permission b.database.now b.server field permissions user (some m))
  unfolding permissions_of get
  one_permission b' user m loaded chosen joined =
      let index = index_members (or_empty b'.members) [] in
      let value = λ (u : User).
        member_permission b'.database.now b'.server field permissions u (get u.id index) in
      let (same_server, same_database) = load_keeps b b' loaded in
      get-fill value user.id (or_empty b'.users) [] none refl
      ∙ ap (valued value) chosen
      ∙ ap (λ o. some (member_permission b'.database.now b'.server field permissions user o))
          (get-index_members user.id (or_empty b'.members) [] none refl ∙ joined)
      ∙ rw (same_server, same_database) refl

  seen_by :
      (b' : BulkDatabasePermissionQuery) (user : User) (m : Member) (v : ℕ)
      → b.channel ≡ some here
      → b.cached_member_perms ≡ none
      → load b ≡ some b'
      → last_user user.id (or_empty b'.users) none ≡ some user
      → last_member user.id (or_empty b'.members) none ≡ some m
      → IsServer (some b.server)
      → IsChannel (some here)
      → test_bit v 20
        ≡ test_bit (member_permission b.database.now b.server field permissions user (some m)) 20
      → v < 2 ^ 64
      → Returns (members_can_see_channel b) (λ sees b''.
        get user.id sees ≡ some (has_channel_permission v ChannelPermission.view_channel))
  seen_by b' user m v chan fresh loaded chosen joined gs gc same small =
      rw (loaded_permissions b' chan fresh loaded) (
        ground (
          arith,
          get-visible user.id (permissions_of b' field permissions),
          one_permission b' user m loaded chosen joined,
          has-view_channel v small,
          has-view_channel _ (permission-lt user m gs gc),
        ))

  -- A member of the bulk query sees the channel there exactly if the calculation for this one user
  -- grants `ViewChannel`. The users and members are those that the query holds once it has fetched
  -- what it lacks, of two with one id the later; the rows hold values in range, and both
  -- calculations read the same time.
  pub bulk_agrees :
      (b' : BulkDatabasePermissionQuery) (user : User) (m : Member)
      → b.channel ≡ some here
      → b.cached_member_perms ≡ none
      → load b ≡ some b'
      → last_user user.id (or_empty b'.users) none ≡ some user
      → last_member user.id (or_empty b'.members) none ≡ some m
      → IsServer (some b.server)
      → IsChannel (some here)
      → b.database.now ≡ database.now
      → Returns (calculate_channel_permissions query (asks user m)) (λ v q'.
        Returns (members_can_see_channel b) (λ sees b''.
          get user.id sees ≡ some (has_channel_permission v ChannelPermission.view_channel)))
  bulk_agrees b' user m chan fresh loaded chosen joined gs gc clock =
      Returns-map _ _ (calculate_channel_permissions query (asks user m))
        (λ v q' f.
          seen_by b' user m v chan fresh loaded chosen joined gs gc
            (f.1 ∙ one_view user m gs gc clock) f.0)
        (channel_permissions_flags (asks user m) id b.server.id field permissions refl 20
          (subst (λ q. IsServer q.server) (sym (at_here user m)) gs) gc (omega arith))
