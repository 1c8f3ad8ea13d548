-- ===== src/Routes/Ranking.antt =====
-- The ranks of roles and members: `get_ranking`, `get_member_rank`, and the calculation that the
-- handlers begin with.
use company_backend.Prelude.{◌-◌, ◌^◌, Ident, Option, none, some, List, [], ◌∷◌, if◌then◌else◌}
use company_backend.Prelude.HashMap.{HashMap, get}
use company_backend.Prelude.Int.{ℤ, ltb_ℤ}
use company_backend.Models.{User, Role, Server, Member}
use company_backend.Permissions.Value.{PermissionValue}
use company_backend.Permissions.Calculate.{calculate_server_permissions}
use company_backend.DatabaseQuery.State.{DatabasePermissionQuery}
use company_backend.DatabaseQuery.Methods.{query}
use company_backend.Routes.World.{Services, Route, ask, server_query}

-- `i64::MAX`, `i64::MIN`
abbrev pub i64_max : ℤ
i64_max = ℤ.pos (2 ^ 63 - 1)

abbrev pub i64_min : ℤ
i64_min = ℤ.negsuc (2 ^ 63 - 1)

-- The loop of `Member::get_ranking` over the ids of the roles, with the `value` so far.
unfoldable pub least_rank : HashMap Role → ℤ → List Ident → ℤ
least_rank roles value [] = value
least_rank roles value (id ∷ ids) = elim (get id roles) [
  | none ↦ least_rank roles value ids
  | some role ↦ least_rank roles (if ltb_ℤ role.rank value then role.rank else value) ids
]

-- `Member::get_ranking`
unfoldable pub get_ranking : Server → Member → ℤ
unfolding least_rank
get_ranking server member = least_rank server.roles i64_max member.roles

-- `DatabasePermissionQuery::get_member_rank`; `unwrap` panics without a server.
unfoldable pub get_member_rank : DatabasePermissionQuery → Option (Option ℤ)
get_member_rank q = elim q.member [
  | none ↦ some none
  | some member ↦ elim q.server [
    | none ↦ none
    | some server ↦ some (some (get_ranking server member))
  ]
]

-- `unwrap_or(i64::MIN)`
abbrev pub or_min : Option ℤ → ℤ
or_min none = i64_min
or_min (some rank) = rank

-- `calculate_server_permissions(&mut query).await`, with the query object after it.
abbrev pub calculate : Services → User → Server → Route (PermissionValue × DatabasePermissionQuery)
calculate services user server w =
    ask (calculate_server_permissions query (server_query services user server w)) w
