-- ===== src/Users.antt =====
-- crates/core/database/src/models/users/model.rs: the relationships between two users.
pub mod Reference
mod Relations
pub mod Tiers
pub mod Status
pub mod Pairs
pub mod Actions
pub mod Store
use company_backend.Prelude.{
  ℕ, Ident, Bool, Option, none, some, List, [], ◌∷◌, ◌++◌, length, filter, find?, leb, ◌==◌,
  if◌then◌else◌,
}
use company_backend.Prelude.HashMap.{HashMap}
use company_backend.Models.{RelationshipStatus, Relationship, User}
use company_backend.Result.{Error, Result, ok, err, Done}
use company_backend.Users.Reference.{with_relation}
use company_backend.Users.Reference

-- What goes out: the calls of `amqp`, and `EventV1::UserRelationship` to the user `id`. The users
-- are held as they are cloned, before they are turned into the form of the API.
pub data Notice : Type 0 where
  friend_request_accepted : (accepter sender : User) → Notice
  friend_request_received : (receiver sender : User) → Notice
  user_relationship : (id : Ident) (about seen_by : User) → Notice

-- The store, the two users the handler has in memory, `self` and `target`, and what was sent.
pub record State : Type 0 where
  pub users : HashMap User
  pub self : User
  pub target : User
  pub sent : List Notice

-- `User::relationship_with`
unfoldable pub relationship_with : User → Ident → RelationshipStatus
relationship_with we user_b =
    if we.id == user_b then RelationshipStatus.user else Reference.listed user_b we.relations

-- `User::set_relationship`
unfoldable pub set_relationship :
    HashMap User → User → User → RelationshipStatus → HashMap User × Result User
set_relationship users we user_b status =
    let (users', result) = Reference.set_relationship we.id user_b.id status users in
    elim result [
      | err e ↦ (users', err e)
      | ok _ ↦ (users', ok (with_relation user_b.id status we))
    ]

-- `User::apply_relationship`
abbrev pub apply_local :
    RelationshipStatus → State → HashMap User × Result User → State × Result Done
apply_local local s (users, err e) = (record s { users = users }, err e)
apply_local local s (users, ok target) =
    let (users', result) = set_relationship users s.self target local in
    elim result [
      | err e ↦ (record s { users = users'; target = target }, err e)
      | ok we ↦ (
        record {
          users = users';
          self = we;
          target = target;
          sent =
              s.sent
              ++ (user_relationship target.id we target ∷ user_relationship we.id target we ∷ []);
        },
        ok tt,
      )
    ]

unfoldable pub apply_relationship :
    RelationshipStatus → RelationshipStatus → State → State × Result Done
unfolding set_relationship
apply_relationship local remote s =
    apply_local local s (set_relationship s.users s.target s.self remote)

abbrev pub is_outgoing : RelationshipStatus → Bool
is_outgoing RelationshipStatus.outgoing = Bool.true
is_outgoing _ = Bool.false

-- The user's current count of outgoing friend requests.
abbrev pub outgoing_count : Option (List Relationship) → ℕ
outgoing_count none = 0
outgoing_count (some relations) = length (filter (λ r. is_outgoing r.status) relations)

abbrev pub send : Notice → State → State
send notice s = record s { sent = s.sent ++ (notice ∷ []) }

-- `User::add_friend`; `limit` is `limits().outgoing_friend_requests`.
abbrev pub add_as : ℕ → RelationshipStatus → State → State × Result Done
add_as limit RelationshipStatus.user s = (s, err Error.no_effect)
add_as limit RelationshipStatus.friend s = (s, err Error.already_friends)
add_as limit RelationshipStatus.outgoing s = (s, err Error.already_sent_request)
add_as limit RelationshipStatus.blocked s = (s, err Error.blocked)
add_as limit RelationshipStatus.blocked_other s = (s, err Error.blocked_by_other)
add_as limit RelationshipStatus.incoming s =
    apply_relationship RelationshipStatus.friend RelationshipStatus.friend
      (send (friend_request_accepted s.self s.target) s)
add_as limit RelationshipStatus.none s =
    if leb limit (outgoing_count s.self.relations)
    then (s, err (Error.too_many_pending_friend_requests limit))
    else apply_relationship RelationshipStatus.outgoing RelationshipStatus.incoming
        (send (friend_request_received s.target s.self) s)

unfoldable pub add_friend : ℕ → State → State × Result Done
unfolding relationship_with apply_relationship
add_friend limit s = add_as limit (relationship_with s.self s.target.id) s

-- `User::remove_friend`
abbrev pub remove_as : RelationshipStatus → State → State × Result Done
remove_as RelationshipStatus.friend s =
    apply_relationship RelationshipStatus.none RelationshipStatus.none s
remove_as RelationshipStatus.outgoing s =
    apply_relationship RelationshipStatus.none RelationshipStatus.none s
remove_as RelationshipStatus.incoming s =
    apply_relationship RelationshipStatus.none RelationshipStatus.none s
remove_as _ s = (s, err Error.no_effect)

unfoldable pub remove_friend : State → State × Result Done
unfolding relationship_with apply_relationship
remove_friend s = remove_as (relationship_with s.self s.target.id) s

-- `User::block_user`
abbrev pub block_as : RelationshipStatus → State → State × Result Done
block_as RelationshipStatus.user s = (s, err Error.no_effect)
block_as RelationshipStatus.blocked s = (s, err Error.no_effect)
block_as RelationshipStatus.blocked_other s =
    apply_relationship RelationshipStatus.blocked RelationshipStatus.blocked s
block_as _ s = apply_relationship RelationshipStatus.blocked RelationshipStatus.blocked_other s

unfoldable pub block_user : State → State × Result Done
unfolding relationship_with apply_relationship
block_user s = block_as (relationship_with s.self s.target.id) s

-- `User::unblock_user`
abbrev pub unblock_as : RelationshipStatus → RelationshipStatus → State → State × Result Done
unblock_as RelationshipStatus.blocked RelationshipStatus.blocked s =
    apply_relationship RelationshipStatus.blocked_other RelationshipStatus.blocked s
unblock_as RelationshipStatus.blocked RelationshipStatus.blocked_other s =
    apply_relationship RelationshipStatus.none RelationshipStatus.none s
unblock_as RelationshipStatus.blocked _ s = (s, err Error.internal_error)
unblock_as _ _ s = (s, err Error.no_effect)

unfoldable pub unblock_user : State → State × Result Done
unfolding relationship_with apply_relationship
unblock_user s =
    unblock_as (relationship_with s.self s.target.id) (relationship_with s.target s.self.id) s
