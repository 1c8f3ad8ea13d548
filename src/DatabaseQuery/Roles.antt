-- ===== src/DatabaseQuery/Roles.antt =====
-- The role overrides of a member, in the order of `get_our_server_role_overrides` and
-- `get_our_channel_role_overrides`.
use company_backend.Prelude.{Ident, Option, none, some, List, [], ◌∷◌, map, contains, if◌then◌else◌}
use company_backend.Prelude.HashMap.{HashMap, get}
use company_backend.Prelude.Int.{ℤ, leb_ℤ}
use company_backend.Models.{Role, Member}
use company_backend.Permissions.Override.{Override, OverrideField, from_field}

-- `roles.sort_by(|a, b| b.0.cmp(&a.0))`: stable, from the greatest rank number to the least.
abbrev pub Ranked : Type 0
Ranked = ℤ × Override

unfoldable pub place : Ranked → List Ranked → List Ranked
place a [] = a ∷ []
place a (b ∷ rest) = if leb_ℤ b.0 a.0 then a ∷ b ∷ rest else b ∷ place a rest

unfoldable pub sort_by_rank : List Ranked → List Ranked
unfolding place
sort_by_rank [] = []
sort_by_rank (a ∷ rest) = place a (sort_by_rank rest)

abbrev pub member_roles : Option Member → List Ident
member_roles none = []
member_roles (some member) = member.roles

-- The roles of the server that the member has, with their ranks.
unfoldable pub server_roles : List Ident → HashMap Role → List Ranked
server_roles held [] = []
server_roles held ((id, role) ∷ rest) =
    if contains held id
    then (role.rank, from_field role.permissions) ∷ server_roles held rest
    else server_roles held rest

-- The overrides of the channel for roles that the member has and the server knows.
unfoldable pub channel_roles : List Ident → HashMap Role → HashMap OverrideField → List Ranked
channel_roles held roles [] = []
channel_roles held roles ((id, field) ∷ rest) =
    let others = channel_roles held roles rest in
    if contains held id
    then (elim (get id roles) [
      | none ↦ others
      | some role ↦ (role.rank, from_field field) ∷ others
    ])
    else others

abbrev pub overrides_of : List Ranked → List Override
overrides_of = map (λ r. r.1)
