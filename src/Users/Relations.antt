-- ===== src/Users/Relations.antt =====
-- What a list of relations holds after a change.
use company_backend.Prelude.{
  Ident, ◌≡◌, refl, ap, ◌≢◌, Option, none, some, List, [], ◌∷◌, ◌++◌, find?, arith, ◌==◌,
}
use company_backend.Prelude.HashMap.{HashMap, get, insert}
use company_backend.Models.{RelationshipStatus, Relationship, User}
use company_backend.Result.{ok}
use company_backend.Users.Reference.{
  without, pulled, pushed, changed, with_relation, set_relationship, found_status, listed, kept,
}

find-without :
    (id : Ident) (xs : List Relationship) → find? (λ x. x.id == id) (without id xs) ≡ none
find-without id [] = refl
find-without id (x ∷ xs) = ground (arith, find-without id xs)

find-without_other :
    (id other : Ident) (xs : List Relationship)
    → other ≢ id
    → find? (λ x. x.id == other) (without id xs) ≡ find? (λ x. x.id == other) xs
find-without_other id other [] h = refl
find-without_other id other (x ∷ xs) h = ground (arith, find-without_other id other xs h)

find-push :
    (id : Ident) (status : RelationshipStatus) (xs : List Relationship)
    → find? (λ x. x.id == id) (without id xs ++ (record { id = id; status = status } ∷ []))
      ≡ some (record { id = id; status = status })
find-push id status [] = ground arith
find-push id status (x ∷ xs) = ground (arith, find-push id status xs)

find-push_other :
    (id other : Ident) (status : RelationshipStatus) (xs : List Relationship)
    → other ≢ id
    → find? (λ x. x.id == other) (without id xs ++ (record { id = id; status = status } ∷ []))
      ≡ find? (λ x. x.id == other) xs
find-push_other id other status [] h = ground arith
find-push_other id other status (x ∷ xs) h = ground (arith, find-push_other id other status xs h)

pub listed-changed :
    (id : Ident) (status : RelationshipStatus) (relations : Option (List Relationship))
    → listed id (changed id status relations) ≡ kept status
listed-changed id RelationshipStatus.none none = refl
listed-changed id RelationshipStatus.user none = refl
listed-changed id RelationshipStatus.none (some xs) = ap found_status (find-without id xs)
listed-changed id RelationshipStatus.user (some xs) = ap found_status (find-without id xs)
listed-changed id RelationshipStatus.friend none = ground arith
listed-changed id RelationshipStatus.outgoing none = ground arith
listed-changed id RelationshipStatus.incoming none = ground arith
listed-changed id RelationshipStatus.blocked none = ground arith
listed-changed id RelationshipStatus.blocked_other none = ground arith
listed-changed id RelationshipStatus.friend (some xs) =
    ap found_status (find-push id RelationshipStatus.friend xs)
listed-changed id RelationshipStatus.outgoing (some xs) =
    ap found_status (find-push id RelationshipStatus.outgoing xs)
listed-changed id RelationshipStatus.incoming (some xs) =
    ap found_status (find-push id RelationshipStatus.incoming xs)
listed-changed id RelationshipStatus.blocked (some xs) =
    ap found_status (find-push id RelationshipStatus.blocked xs)
listed-changed id RelationshipStatus.blocked_other (some xs) =
    ap found_status (find-push id RelationshipStatus.blocked_other xs)

pushed_other :
    (id other : Ident) (status : RelationshipStatus) (relations : Option (List Relationship))
    → other ≢ id
    → listed other (pushed id status relations) ≡ listed other relations
pushed_other id other status none h = ground arith
pushed_other id other status (some xs) h = ap found_status (find-push_other id other status xs h)

pulled_other :
    (id other : Ident) (relations : Option (List Relationship))
    → other ≢ id
    → listed other (pulled id relations) ≡ listed other relations
pulled_other id other none h = refl
pulled_other id other (some xs) h = ap found_status (find-without_other id other xs h)

pub listed-changed_other :
    (id other : Ident) (status : RelationshipStatus) (relations : Option (List Relationship))
    → other ≢ id
    → listed other (changed id status relations) ≡ listed other relations
listed-changed_other id other RelationshipStatus.none r h = pulled_other id other r h
listed-changed_other id other RelationshipStatus.user r h = pulled_other id other r h
listed-changed_other id other RelationshipStatus.friend r h = pushed_other id other _ r h
listed-changed_other id other RelationshipStatus.outgoing r h = pushed_other id other _ r h
listed-changed_other id other RelationshipStatus.incoming r h = pushed_other id other _ r h
listed-changed_other id other RelationshipStatus.blocked r h = pushed_other id other _ r h
listed-changed_other id other RelationshipStatus.blocked_other r h = pushed_other id other _ r h

-- Where the user is stored, the store makes the change that `changed` describes.
pub set_relationship-stored :
    (user_id target_id : Ident) (status : RelationshipStatus) (users : HashMap User) (user : User)
    → get user_id users ≡ some user
    → set_relationship user_id target_id status users
      ≡ (insert user_id (with_relation target_id status user) users, ok tt)
unfolding set_relationship
set_relationship-stored user_id target_id RelationshipStatus.none users user h = ground arith
set_relationship-stored user_id target_id RelationshipStatus.user users user h = ground arith
set_relationship-stored user_id target_id RelationshipStatus.friend users user h = ground arith
set_relationship-stored user_id target_id RelationshipStatus.outgoing users user h = ground arith
set_relationship-stored user_id target_id RelationshipStatus.incoming users user h = ground arith
set_relationship-stored user_id target_id RelationshipStatus.blocked users user h = ground arith
set_relationship-stored user_id target_id RelationshipStatus.blocked_other users user h =
    ground arith
