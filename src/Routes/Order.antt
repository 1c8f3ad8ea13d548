-- ===== src/Routes/Order.antt =====
-- roles_edit_positions.rs of crates/delta/src/routes/servers, with `ordered_roles` and
-- `set_role_ordering` of crates/core/database/src/models/servers/model.rs.
pub mod Positions
pub mod Protected
pub mod Accepted
use company_backend.Prelude.{
  ℕ, ◌+◌, Ident, Bool, true, false, not, ◌&&◌, ◌||◌, Option, none, some, List, [], ◌∷◌, map,
  contains, length, ◌==◌, if◌then◌else◌,
}
use company_backend.Prelude.HashMap
use company_backend.Prelude.HashMap.{HashMap, get}
use company_backend.Prelude.Int.{ℤ, leb_ℤ, as_i64}
use company_backend.Models.{User, Role, Server}
use company_backend.Permissions.Flags.{ChannelPermission}
use company_backend.Permissions.Value.{throw_if_lacking_channel_permission}
use company_backend.Stores.Servers.{update_server}
use company_backend.Result.{Error, ok}
use company_backend.Routes.World.{
  PartialServer, Services, Route, lift, ask, ◌>>=◌, ◌>>◌, refuse_if, on_servers, as_server,
  sync_channels,
}
use company_backend.Routes.Ranking.{get_member_rank, calculate}

-- `sort_by(|(_, role_a), (_, role_b)| role_a.rank.cmp(&role_b.rank))`: stable.
unfoldable pub place : Ident × Role → HashMap Role → HashMap Role
place a [] = a ∷ []
place a (b ∷ rest) = if leb_ℤ a.1.rank b.1.rank then a ∷ b ∷ rest else b ∷ place a rest

-- `Server::ordered_roles`
unfoldable pub ordered_roles : HashMap Role → HashMap Role
unfolding place
ordered_roles [] = []
ordered_roles (a ∷ rest) = place a (ordered_roles rest)

abbrev pub ids_of : HashMap Role → List Ident
ids_of = map (λ entry. entry.0)

-- `iter().position(|x| x == id)`, counted from `n`.
unfoldable pub position_from : ℕ → List Ident → Ident → Option ℕ
position_from n [] id = none
position_from n (x ∷ xs) id = if x == id then some n else position_from (n + 1) xs id

abbrev pub position : List Ident → Ident → Option ℕ
position = position_from 0

abbrev pub is_same : Option ℕ → Option ℕ → Bool
is_same none none = true
is_same (some a) (some b) = a == b
is_same _ _ = false

-- `server.roles.iter().all(|(id, _)| data.ranks.contains(id))`
abbrev pub all_contained : HashMap Role → List Ident → Bool
all_contained [] ranks = true
all_contained ((id, role) ∷ rest) ranks = contains ranks id && all_contained rest ranks

-- The filter: a role that the member cannot reorder; all of them for a caller without a rank.
abbrev pub is_fixed : Option ℤ → Role → Bool
is_fixed none role = true
is_fixed (some top_rank) role = leb_ℤ role.rank top_rank

-- One of those is moved.
unfoldable pub any_moved : Option ℤ → (existing_order new_order : List Ident) → HashMap Role → Bool
any_moved rank existing_order new_order [] = false
any_moved rank existing_order new_order ((id, role) ∷ rest) =
    (is_fixed rank role && not (is_same (position existing_order id) (position new_order id)))
    || any_moved rank existing_order new_order rest

-- The loop of `set_role_ordering` from the position `n` on; `unwrap` panics on an unknown id.
unfoldable pub set_ranks : ℕ → List Ident → HashMap Role → Option (HashMap Role)
set_ranks n [] roles = some roles
set_ranks n (id ∷ ids) roles = elim (get id roles) [
  | none ↦ none
  | some role ↦ set_ranks (n + 1) ids (HashMap.insert id (record role { rank = as_i64 n }) roles)
]

abbrev pub only_roles : HashMap Role → PartialServer
only_roles roles = record { roles = some roles; default_permissions = none }

module _ (services : Services) where
  -- `Server::set_role_ordering`: the server after it.
  unfoldable pub set_role_ordering : Server → (new_order : List Ident) → Route Server
  unfolding set_ranks update_server
  set_role_ordering server new_order = do
    roles ← ask (set_ranks 0 new_order server.roles)
    on_servers (update_server server.id (services.apply_server (only_roles roles)))
    lift (ok (record server { roles = roles }))

  unfoldable pub edit_role_ranks : User → (target : Ident) → (ranks : List Ident) → Route Server
  unfolding get_member_rank ordered_roles any_moved set_role_ordering sync_channels
  edit_role_ranks user target ranks = do
    server ← as_server target
    (value, query) ← calculate services user server
    lift (throw_if_lacking_channel_permission value ChannelPermission.manage_role)
    let existing_order : List Ident = ids_of (ordered_roles server.roles)
    refuse_if (not (length ranks == length server.roles) || not (all_contained server.roles ranks))
        Error.invalid_operation
    if server.owner == user.id then lift (ok tt) else (do
      rank ← ask (get_member_rank query)
      refuse_if (any_moved rank existing_order ranks server.roles) Error.not_elevated)
    changed ← set_role_ordering server ranks
    sync_channels services changed none server.channels
    lift (ok changed)
