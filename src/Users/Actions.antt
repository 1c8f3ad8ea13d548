-- ===== src/Users/Actions.antt =====
-- The four actions on a relationship against the state machine.
use company_backend.Prelude.{
  ℕ, refl, ◌≢◌, Bool, true, false, Option, none, some, arith, leb, if◌then◌else◌,
}
use company_backend.Models.{RelationshipStatus}
use company_backend.Result.{Error, Result, ok, err, Done}
use company_backend.Users.Status.{Action, next, IsPair, IsGood, next-IsGood}
use company_backend.Users.Pairs.{ours, theirs, IsStored, Agrees, apply-Agrees}
use company_backend.Users.{
  State, friend_request_accepted, friend_request_received, apply_relationship, outgoing_count, send,
  add_as, remove_as, add_friend, remove_friend, block_as, block_user, unblock_as, unblock_user,
}

unfoldable pub run : ℕ → Action → State → State × Result Done
unfolding add_friend remove_friend block_user unblock_user
run limit Action.add s = add_friend limit s
run limit Action.remove s = remove_friend s
run limit Action.block s = block_user s
run limit Action.unblock s = unblock_user s

abbrev pub limit_reached : ℕ → State → Option ℕ
limit_reached limit s = if leb limit (outgoing_count s.self.relations) then some limit else none

add_new-Agrees :
    (limit : ℕ) (full : Bool) (b : RelationshipStatus) (s : State)
    → IsStored s
    → Agrees s
        (if full
          then (s, err (Error.too_many_pending_friend_requests limit))
          else apply_relationship RelationshipStatus.outgoing RelationshipStatus.incoming
              (send (friend_request_received s.target s.self) s))
        (next (if full then some limit else none) Action.add RelationshipStatus.none b)
unfolding next
add_new-Agrees limit true b s h = (refl, refl)
add_new-Agrees limit false b s h =
    apply-Agrees _ _ (send (friend_request_received s.target s.self) s) h

add-Agrees :
    (limit : ℕ) (a b : RelationshipStatus) (s : State)
    → IsStored s
    → Agrees s (add_as limit a s) (next (limit_reached limit s) Action.add a b)
unfolding next
add-Agrees limit RelationshipStatus.user b s h = (refl, refl)
add-Agrees limit RelationshipStatus.friend b s h = (refl, refl)
add-Agrees limit RelationshipStatus.outgoing b s h = (refl, refl)
add-Agrees limit RelationshipStatus.blocked b s h = (refl, refl)
add-Agrees limit RelationshipStatus.blocked_other b s h = (refl, refl)
add-Agrees limit RelationshipStatus.incoming b s h =
    apply-Agrees RelationshipStatus.friend RelationshipStatus.friend
      (send (friend_request_accepted s.self s.target) s) h
add-Agrees limit RelationshipStatus.none b s h =
    add_new-Agrees limit (leb limit (outgoing_count s.self.relations)) b s h

remove-Agrees :
    (limit : Option ℕ) (a b : RelationshipStatus) (s : State)
    → IsStored s
    → Agrees s (remove_as a s) (next limit Action.remove a b)
unfolding next
remove-Agrees limit RelationshipStatus.friend b s h = apply-Agrees _ _ s h
remove-Agrees limit RelationshipStatus.outgoing b s h = apply-Agrees _ _ s h
remove-Agrees limit RelationshipStatus.incoming b s h = apply-Agrees _ _ s h
remove-Agrees limit RelationshipStatus.none b s h = (refl, refl)
remove-Agrees limit RelationshipStatus.user b s h = (refl, refl)
remove-Agrees limit RelationshipStatus.blocked b s h = (refl, refl)
remove-Agrees limit RelationshipStatus.blocked_other b s h = (refl, refl)

block-Agrees :
    (limit : Option ℕ) (a b : RelationshipStatus) (s : State)
    → IsStored s
    → Agrees s (block_as a s) (next limit Action.block a b)
unfolding next
block-Agrees limit RelationshipStatus.user b s h = (refl, refl)
block-Agrees limit RelationshipStatus.blocked b s h = (refl, refl)
block-Agrees limit RelationshipStatus.blocked_other b s h = apply-Agrees _ _ s h
block-Agrees limit RelationshipStatus.none b s h = apply-Agrees _ _ s h
block-Agrees limit RelationshipStatus.friend b s h = apply-Agrees _ _ s h
block-Agrees limit RelationshipStatus.incoming b s h = apply-Agrees _ _ s h
block-Agrees limit RelationshipStatus.outgoing b s h = apply-Agrees _ _ s h

unblock_blocked :
    (limit : Option ℕ) (b : RelationshipStatus) (s : State)
    → IsStored s
    → Agrees s
        (unblock_as RelationshipStatus.blocked b s)
        (next limit Action.unblock RelationshipStatus.blocked b)
unfolding next
unblock_blocked limit RelationshipStatus.blocked s h = apply-Agrees _ _ s h
unblock_blocked limit RelationshipStatus.blocked_other s h = apply-Agrees _ _ s h
unblock_blocked limit RelationshipStatus.none s h = (refl, refl)
unblock_blocked limit RelationshipStatus.user s h = (refl, refl)
unblock_blocked limit RelationshipStatus.friend s h = (refl, refl)
unblock_blocked limit RelationshipStatus.outgoing s h = (refl, refl)
unblock_blocked limit RelationshipStatus.incoming s h = (refl, refl)

unblock-Agrees :
    (limit : Option ℕ) (a b : RelationshipStatus) (s : State)
    → IsStored s
    → Agrees s (unblock_as a b s) (next limit Action.unblock a b)
unfolding next
unblock-Agrees limit RelationshipStatus.blocked b s h = unblock_blocked limit b s h
unblock-Agrees limit RelationshipStatus.user b s h = (refl, refl)
unblock-Agrees limit RelationshipStatus.none b s h = (refl, refl)
unblock-Agrees limit RelationshipStatus.friend b s h = (refl, refl)
unblock-Agrees limit RelationshipStatus.incoming b s h = (refl, refl)
unblock-Agrees limit RelationshipStatus.outgoing b s h = (refl, refl)
unblock-Agrees limit RelationshipStatus.blocked_other b s h = (refl, refl)

-- With two users in memory as the store holds them, every action does what the state machine on
-- the pair of statuses says. Where that is an error, the error is returned and nothing changes.
-- Otherwise the action succeeds, both users have the new statuses, the store again holds both as
-- they are in memory, and no other user, and no other relation of the two, changes.
pub run-Agrees :
    (limit : ℕ) (action : Action) (s : State)
    → IsStored s
    → Agrees s (run limit action s) (next (limit_reached limit s) action (ours s) (theirs s))
unfolding run add_friend remove_friend block_user unblock_user
run-Agrees limit Action.add s h = add-Agrees limit (ours s) (theirs s) s h
run-Agrees limit Action.remove s h = remove-Agrees _ (ours s) (theirs s) s h
run-Agrees limit Action.block s h = block-Agrees _ (ours s) (theirs s) s h
run-Agrees limit Action.unblock s h = unblock-Agrees _ (ours s) (theirs s) s h

kept_pair :
    (s : State) (after : State × Result Done)
    (expected : Result (RelationshipStatus × RelationshipStatus))
    → Agrees s after expected
    → IsGood expected
    → IsStored s
    → IsPair (ours s) (theirs s)
    → IsStored after.0
      × IsPair (ours after.0) (theirs after.0)
      × (after.1 ≢ err Error.internal_error)
kept_pair s (s', r) (ok (a, b)) agrees good h pair = ground arith
kept_pair s (s', r) (err e) agrees good h pair = ground arith

-- Two users whose statuses are one of the seven pairs stay in one of them, whatever is done, and
-- no action ends in `InternalError`; the store and the memory keep in step.
pub run-IsPair :
    (limit : ℕ) (action : Action) (s : State)
    → IsStored s
    → IsPair (ours s) (theirs s)
    → let (s', r) = run limit action s in
      IsStored s' × IsPair (ours s') (theirs s') × (r ≢ err Error.internal_error)
run-IsPair limit action s h pair =
    kept_pair s (run limit action s) (next (limit_reached limit s) action (ours s) (theirs s))
      (run-Agrees limit action s h)
      (next-IsGood (limit_reached limit s) action (ours s) (theirs s) pair) h pair
