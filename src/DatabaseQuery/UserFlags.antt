-- ===== src/DatabaseQuery/UserFlags.antt =====
-- What `calculate_user_permissions` of crates/core/permissions/src/impl.rs gives, over database
-- rows.
use company_backend.Prelude.{◌≡◌, Bool, true, false, not, ◌&&◌, ◌||◌, none, some, arith}
use company_backend.Permissions.Flags.{RelationshipStatus, UserPermission}
use company_backend.Permissions.Value.{has_user_permission, has}
use company_backend.Permissions.Query.{Returns}
use company_backend.Permissions.Calculate.{calculate_user_permissions}
use company_backend.DatabaseQuery.State.{DatabasePermissionQuery, relationship, is_some, or_false}
use company_backend.DatabaseQuery.Methods.{query, we, is_selected, is_bot, have_mutual_connection}

-- Whether the two users share a server or a group, as cached or as the database says.
abbrev pub connected : DatabasePermissionQuery → Bool
connected q = elim q.cached_mutual_connection [
  | some value ↦ value
  | none ↦ elim q.user [
    | none ↦ false
    | some user ↦ or_false (q.database.has_mutual_connection (we q) user.id)
  ]
]

abbrev pub is_friend : RelationshipStatus → Bool
is_friend RelationshipStatus.friend = true
is_friend _ = false

abbrev pub is_barred : RelationshipStatus → Bool
is_barred RelationshipStatus.blocked = true
is_barred RelationshipStatus.blocked_other = true
is_barred _ = false

abbrev pub is_pending : RelationshipStatus → Bool
is_pending RelationshipStatus.incoming = true
is_pending RelationshipStatus.outgoing = true
is_pending _ = false

-- The three ways to be granted everything.
abbrev pub is_trusted : DatabasePermissionQuery → Bool
is_trusted q =
    q.perspective.privileged || is_selected q || is_friend (relationship q.perspective q.user)

abbrev pub is_acquainted : DatabasePermissionQuery → Bool
is_acquainted q = not (is_barred (relationship q.perspective q.user)) && connected q

abbrev pub can_message : DatabasePermissionQuery → Bool
can_message q = is_trusted q || (is_acquainted q && (is_bot q.user || is_some q.perspective.bot))

abbrev pub can_access : DatabasePermissionQuery → Bool
can_access q =
    is_trusted q
    || is_barred (relationship q.perspective q.user)
    || is_pending (relationship q.perspective q.user)
    || connected q

have_mutual_connection_lem :
    (q : DatabasePermissionQuery)
    → Returns
        (have_mutual_connection q)
        (λ c q'. (c ≡ connected q) × (q'.user ≡ q.user) × (q'.perspective ≡ q.perspective))
unfolding have_mutual_connection
have_mutual_connection_lem q = ground arith

-- `calculate_user_permissions` never panics. Access is granted to the trusted (privileged, the
-- same user, a friend), to both sides of a block or of a pending request, and to mutual
-- connections; the profile to the trusted and to mutual connections without a block; and messages
-- to the trusted, and to mutual connections without a block if one side is a bot.
pub user_permissions_flags :
    (q : DatabasePermissionQuery)
    → Returns (calculate_user_permissions query q) (λ v q'.
      (has_user_permission v UserPermission.access ≡ can_access q)
      × (has_user_permission v UserPermission.view_profile ≡ (is_trusted q || is_acquainted q))
      × (has_user_permission v UserPermission.send_message ≡ can_message q))
unfolding calculate_user_permissions have_mutual_connection has
user_permissions_flags q = ground arith
