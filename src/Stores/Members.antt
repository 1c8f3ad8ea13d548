-- ===== src/Stores/Members.antt =====
-- crates/core/database/src/models/server_members/ops/reference.rs: the store of server members.
-- An operation that changes the store gives the store after it and its result; `none` is a panic.
pub mod View
use company_backend.Prelude.{
  ℕ, Ident, Bool, true, false, ◌&&◌, ◌||◌, Option, none, some, List, [], ◌∷◌, contains, filter,
  length, ◌==◌, if◌then◌else◌,
}
use company_backend.Prelude.PairMap.{PairMap, get, insert, remove, values}
use company_backend.Models.{Member, MemberCompositeKey}
use company_backend.Result.{Error, Result, ok, err, Done}
use company_backend.DatabaseQuery.State.{in_timeout}

abbrev pub Members : Type 0
Members = PairMap Member

unfoldable pub insert_or_merge_member : Member → Members → Members × Result (Option Member)
insert_or_merge_member member m = elim (get member.id.server member.id.user m) [
  | some _ ↦ (m, err Error.database_error)
  | none ↦ (insert member.id.server member.id.user member m, ok none)
]

abbrev pub or_not_found {ℓ} : {A : Type ℓ} → Option A → Result A
or_not_found none = err Error.not_found
or_not_found (some a) = ok a

unfoldable pub fetch_member : (server_id user_id : Ident) → Members → Result Member
fetch_member server_id user_id m = or_not_found (get server_id user_id m)

unfoldable pub fetch_all_members : Ident → Members → Result (List Member)
fetch_all_members server_id m = ok (filter (λ member. member.id.server == server_id) (values m))

-- One of the roles is among those given.
abbrev pub any_among : (roles given : List Ident) → Bool
any_among [] given = false
any_among (r ∷ rs) given = contains given r || any_among rs given

unfoldable pub fetch_all_members_with_roles : Ident → List Ident → Members → Result (List Member)
fetch_all_members_with_roles server_id roles m =
    ok (filter (λ member. member.id.server == server_id && any_among member.roles roles) (values m))

unfoldable pub fetch_all_memberships : Ident → Members → Result (List Member)
fetch_all_memberships user_id m = ok (filter (λ member. member.id.user == user_id) (values m))

-- `filter_map`
abbrev pub found_members : Ident → List Ident → Members → List Member
found_members server_id [] m = []
found_members server_id (id ∷ ids) m =
    let rest = found_members server_id ids m in
    elim (get server_id id m) [ none ↦ rest | some member ↦ member ∷ rest ]

unfoldable pub fetch_members : Ident → List Ident → Members → Result (List Member)
fetch_members server_id ids m = ok (found_members server_id ids m)

unfoldable pub fetch_member_count : Ident → Members → Result ℕ
fetch_member_count server_id m =
    ok (length (filter (λ member. member.id.server == server_id) (values m)))

unfoldable pub fetch_server_count : Ident → Members → Result ℕ
fetch_server_count user_id m = ok (length (filter (λ member. member.id.user == user_id) (values m)))

-- What `remove_field` and `apply_options` make of the row is given.
unfoldable pub update_member :
    MemberCompositeKey → (Member → Member) → Members → Members × Result Done
update_member id change m = elim (get id.server id.user m) [
  | none ↦ (m, err Error.not_found)
  | some member ↦ (insert id.server id.user (change member) m, ok tt)
]

unfoldable pub force_delete_member : MemberCompositeKey → Members → Members × Result Done
force_delete_member id m = elim (get id.server id.user m) [
  | none ↦ (m, err Error.not_found)
  | some _ ↦ (remove id.server id.user m, ok tt)
]

-- It panics for a member in a timeout.
unfoldable pub soft_delete_member :
    (now : ℕ) → MemberCompositeKey → Members → Option (Members × Result Done)
soft_delete_member now id m = elim (get id.server id.user m) [
  | none ↦ some (m, err Error.not_found)
  | some member ↦ if in_timeout now member then none else some (remove id.server id.user m, ok tt)
]
