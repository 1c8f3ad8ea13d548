-- ===== src/Users/Reference.antt =====
-- crates/core/database/src/models/users/ops/reference.rs: the store of users kept in memory.
use company_backend.Prelude.{
  ℕ, Ident, not, Option, none, some, List, [], ◌∷◌, ◌++◌, length, filter, find?, ◌==◌,
  if◌then◌else◌,
}
use company_backend.Prelude.HashMap.{HashMap, get, insert, remove, contains_key}
use company_backend.Models.{RelationshipStatus, Relationship, User}
use company_backend.Result.{Error, Result, ok, err, Done}

unfoldable pub insert_user : User → HashMap User → HashMap User × Result Done
insert_user user users =
    if contains_key user.id users
    then (users, err Error.database_error)
    else (insert user.id user users, ok tt)

unfoldable pub fetch_user : Ident → HashMap User → Result User
fetch_user id users = elim (get id users) [ none ↦ err Error.not_found | some user ↦ ok user ]

-- `collect` into a `Result` stops at the first error.
unfoldable pub fetch_users : List Ident → HashMap User → Result (List User)
unfolding fetch_user
fetch_users [] users = ok []
fetch_users (id ∷ ids) users = elim (fetch_user id users) [
  | err e ↦ err e
  | ok user ↦ elim (fetch_users ids users) [ err e ↦ err e | ok rest ↦ ok (user ∷ rest) ]
]

unfoldable pub delete_user : Ident → HashMap User → HashMap User × Result Done
delete_user id users =
    if contains_key id users then (remove id users, ok tt) else (users, err Error.not_found)

unfoldable pub count_users : HashMap User → ℕ
count_users users = length users

-- `relations.retain(|relation| relation.id != target_id)`
abbrev pub without : Ident → List Relationship → List Relationship
without id relations = filter (λ relation. not (relation.id == id)) relations

abbrev pub pulled : Ident → Option (List Relationship) → Option (List Relationship)
pulled id none = none
pulled id (some relations) = some (without id relations)

abbrev pub pushed :
    Ident → RelationshipStatus → Option (List Relationship) → Option (List Relationship)
pushed id status none = some (record { id = id; status = status } ∷ [])
pushed id status (some relations) =
    some (without id relations ++ (record { id = id; status = status } ∷ []))

-- The change of the relations, which the store and `User::set_relationship` both make.
abbrev pub changed :
    Ident → RelationshipStatus → Option (List Relationship) → Option (List Relationship)
changed id RelationshipStatus.none relations = pulled id relations
changed id RelationshipStatus.user relations = pulled id relations
changed id status relations = pushed id status relations

abbrev pub with_relation : Ident → RelationshipStatus → User → User
with_relation id status user = record user { relations = changed id status user.relations }

unfoldable pub pull_relationship : Ident → Ident → HashMap User → HashMap User × Result Done
pull_relationship user_id target_id users = elim (get user_id users) [
  | none ↦ (users, err Error.not_found)
  | some user ↦
      (insert user_id (record user { relations = pulled target_id user.relations }) users, ok tt)
]

abbrev push_relationship :
    Ident → Ident → RelationshipStatus → HashMap User → HashMap User × Result Done
push_relationship user_id target_id status users = elim (get user_id users) [
  | none ↦ (users, err Error.not_found)
  | some user ↦ (
    insert user_id (record user { relations = pushed target_id status user.relations }) users,
    ok tt,
  )
]

unfoldable pub set_relationship :
    Ident → Ident → RelationshipStatus → HashMap User → HashMap User × Result Done
unfolding pull_relationship
set_relationship user_id target_id RelationshipStatus.user users =
    pull_relationship user_id target_id users
set_relationship user_id target_id RelationshipStatus.none users =
    pull_relationship user_id target_id users
set_relationship user_id target_id status users = push_relationship user_id target_id status users

-- The status that a list of relations holds for a user: that of the first entry.
abbrev pub found_status : Option Relationship → RelationshipStatus
found_status none = RelationshipStatus.none
found_status (some relationship) = relationship.status

abbrev pub listed : Ident → Option (List Relationship) → RelationshipStatus
listed id none = RelationshipStatus.none
listed id (some relations) = found_status (find? (λ x. x.id == id) relations)

-- `None` and `User` are not kept in the list.
abbrev pub kept : RelationshipStatus → RelationshipStatus
kept RelationshipStatus.user = RelationshipStatus.none
kept status = status
