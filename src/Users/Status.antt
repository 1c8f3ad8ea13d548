-- ===== src/Users/Status.antt =====
-- The statuses of two users for each other, as a state machine.
use company_backend.Prelude.{ℕ, ◌≢◌, Option, none, some, arith}
use company_backend.Models.{RelationshipStatus}
use company_backend.Result.{Error, Result, ok, err}

pub data Action : Type 0 where
  add remove block unblock : Action

-- The state machine of a pair of statuses; `limit` is the one that is reached, if it is.
unfoldable pub next :
    Option ℕ
    → Action
    → RelationshipStatus
    → RelationshipStatus
    → Result (RelationshipStatus × RelationshipStatus)
next limit Action.add RelationshipStatus.none b = elim limit [
  | none ↦ ok (RelationshipStatus.outgoing, RelationshipStatus.incoming)
  | some n ↦ err (Error.too_many_pending_friend_requests n)
]
next limit Action.add RelationshipStatus.user b = err Error.no_effect
next limit Action.add RelationshipStatus.friend b = err Error.already_friends
next limit Action.add RelationshipStatus.outgoing b = err Error.already_sent_request
next limit Action.add RelationshipStatus.incoming b =
    ok (RelationshipStatus.friend, RelationshipStatus.friend)
next limit Action.add RelationshipStatus.blocked b = err Error.blocked
next limit Action.add RelationshipStatus.blocked_other b = err Error.blocked_by_other
next limit Action.remove RelationshipStatus.friend b =
    ok (RelationshipStatus.none, RelationshipStatus.none)
next limit Action.remove RelationshipStatus.outgoing b =
    ok (RelationshipStatus.none, RelationshipStatus.none)
next limit Action.remove RelationshipStatus.incoming b =
    ok (RelationshipStatus.none, RelationshipStatus.none)
next limit Action.remove _ b = err Error.no_effect
next limit Action.block RelationshipStatus.user b = err Error.no_effect
next limit Action.block RelationshipStatus.blocked b = err Error.no_effect
next limit Action.block RelationshipStatus.blocked_other b =
    ok (RelationshipStatus.blocked, RelationshipStatus.blocked)
next limit Action.block _ b = ok (RelationshipStatus.blocked, RelationshipStatus.blocked_other)
next limit Action.unblock RelationshipStatus.blocked RelationshipStatus.blocked =
    ok (RelationshipStatus.blocked_other, RelationshipStatus.blocked)
next limit Action.unblock RelationshipStatus.blocked RelationshipStatus.blocked_other =
    ok (RelationshipStatus.none, RelationshipStatus.none)
next limit Action.unblock RelationshipStatus.blocked _ = err Error.internal_error
next limit Action.unblock _ b = err Error.no_effect

-- The pairs of statuses that two users can be in.
pub data IsPair : RelationshipStatus → RelationshipStatus → Type 0 where
  strangers : IsPair RelationshipStatus.none RelationshipStatus.none
  friends : IsPair RelationshipStatus.friend RelationshipStatus.friend
  asking : IsPair RelationshipStatus.outgoing RelationshipStatus.incoming
  asked : IsPair RelationshipStatus.incoming RelationshipStatus.outgoing
  blocking : IsPair RelationshipStatus.blocked RelationshipStatus.blocked_other
  shut_out : IsPair RelationshipStatus.blocked_other RelationshipStatus.blocked
  both_blocking : IsPair RelationshipStatus.blocked RelationshipStatus.blocked

-- What a result of the state machine promises on a pair.
abbrev pub IsGood : Result (RelationshipStatus × RelationshipStatus) → Type 0
IsGood (ok (a, b)) = IsPair a b
IsGood (err e) = e ≢ Error.internal_error

pub next-IsGood :
    (limit : Option ℕ) (action : Action) (a b : RelationshipStatus)
    → IsPair a b
    → IsGood (next limit action a b)
unfolding next
next-IsGood none Action.add _ _ strangers = asking
next-IsGood (some k) Action.add _ _ strangers = ground arith
next-IsGood limit Action.remove _ _ strangers = ground arith
next-IsGood limit Action.block _ _ strangers = blocking
next-IsGood limit Action.unblock _ _ strangers = ground arith
next-IsGood limit Action.add _ _ friends = ground arith
next-IsGood limit Action.remove _ _ friends = strangers
next-IsGood limit Action.block _ _ friends = blocking
next-IsGood limit Action.unblock _ _ friends = ground arith
next-IsGood limit Action.add _ _ asking = ground arith
next-IsGood limit Action.remove _ _ asking = strangers
next-IsGood limit Action.block _ _ asking = blocking
next-IsGood limit Action.unblock _ _ asking = ground arith
next-IsGood limit Action.add _ _ asked = friends
next-IsGood limit Action.remove _ _ asked = strangers
next-IsGood limit Action.block _ _ asked = blocking
next-IsGood limit Action.unblock _ _ asked = ground arith
next-IsGood limit Action.add _ _ blocking = ground arith
next-IsGood limit Action.remove _ _ blocking = ground arith
next-IsGood limit Action.block _ _ blocking = ground arith
next-IsGood limit Action.unblock _ _ blocking = strangers
next-IsGood limit Action.add _ _ shut_out = ground arith
next-IsGood limit Action.remove _ _ shut_out = ground arith
next-IsGood limit Action.block _ _ shut_out = both_blocking
next-IsGood limit Action.unblock _ _ shut_out = ground arith
next-IsGood limit Action.add _ _ both_blocking = ground arith
next-IsGood limit Action.remove _ _ both_blocking = ground arith
next-IsGood limit Action.block _ _ both_blocking = ground arith
next-IsGood limit Action.unblock _ _ both_blocking = shut_out
