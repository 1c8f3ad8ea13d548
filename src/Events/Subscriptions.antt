-- ===== src/Events/Subscriptions.antt =====
-- crates/bonfire/src/events/state.rs: the topics that a client is subscribed to, with the part of
-- `listener` in crates/bonfire/src/websocket.rs that passes the changes on.
pub mod Change
pub mod Sync
use company_backend.Prelude.{
  ℕ, Ident, ◌+◌, ◌*◌, Bool, true, false, not, Option, none, some, List, [], ◌∷◌, ◌++◌, contains,
  if◌then◌else◌,
}
use company_backend.Prelude.HashSet.{HashSet, insert, remove, insert_all, remove_all}
use company_backend.Events.Subscriptions.Change.{SubscriptionStateChange}

-- The topics of an id, written apart: the id itself, `format!("{}!", id)` and `format!("{}u", id)`.
abbrev pub topic : Ident → Ident
topic id = 3 * id

abbrev pub private_topic : Ident → Ident
private_topic id = 3 * id + 1

abbrev pub member_topic : Ident → Ident
member_topic id = 3 * id + 2

-- The two fields of `State` that hold subscriptions.
pub record Subscriptions : Type 0 where
  pub state : SubscriptionStateChange
  pub subscribed : HashSet

-- `State::from`, for the id of a user.
unfoldable pub from : Ident → Subscriptions
from id = record {
  state = SubscriptionStateChange.reset;
  subscribed = insert (topic id) (insert (private_topic id) []);
}

-- `State::reset_state`
unfoldable pub reset_state : Subscriptions → Subscriptions
reset_state s = record { state = SubscriptionStateChange.reset; subscribed = [] }

abbrev pub queue_add : Ident → SubscriptionStateChange → SubscriptionStateChange
queue_add t SubscriptionStateChange.none = SubscriptionStateChange.change (t ∷ []) []
queue_add t (SubscriptionStateChange.change add removed) =
    SubscriptionStateChange.change (add ++ (t ∷ [])) removed
queue_add t SubscriptionStateChange.reset = SubscriptionStateChange.reset

-- `State::insert_subscription`
unfoldable pub insert_subscription : Ident → Subscriptions → Subscriptions
insert_subscription t s =
    if contains s.subscribed t
    then s
    else record { state = queue_add t s.state; subscribed = insert t s.subscribed }

-- It panics during a reset.
abbrev pub queue_remove : Ident → SubscriptionStateChange → Option SubscriptionStateChange
queue_remove t SubscriptionStateChange.none = some (SubscriptionStateChange.change [] (t ∷ []))
queue_remove t (SubscriptionStateChange.change add removed) =
    some (SubscriptionStateChange.change add (removed ++ (t ∷ [])))
queue_remove t SubscriptionStateChange.reset = none

abbrev pub removed_from :
    Ident → Subscriptions → Option SubscriptionStateChange → Option Subscriptions
removed_from t s none = none
removed_from t s (some state) = some (record { state = state; subscribed = remove t s.subscribed })

-- `State::remove_subscription`
unfoldable pub remove_subscription : Ident → Subscriptions → Option Subscriptions
remove_subscription t s =
    if not (contains s.subscribed t) then some s else removed_from t s (queue_remove t s.state)

-- What `notify_iter` of the cache of active servers reports.
pub data TimedEntry : Type 0 where
  valid expired : Ident → TimedEntry

-- The loop over `active_server_changes`.
unfoldable pub follow_active : List TimedEntry → Subscriptions → Option Subscriptions
unfolding insert_subscription remove_subscription
follow_active [] s = some s
follow_active (TimedEntry.valid k ∷ rest) s =
    follow_active rest (insert_subscription (member_topic k) s)
follow_active (TimedEntry.expired k ∷ rest) s = elim (remove_subscription (member_topic k) s) [
  | none ↦ none
  | some s' ↦ follow_active rest s'
]

-- The end of `apply_state`: the queued change is taken out.
abbrev pub taken : SubscriptionStateChange → HashSet → HashSet
taken (SubscriptionStateChange.change add removed) set = remove_all removed (insert_all add set)
taken _ set = set

unfoldable pub flush : Subscriptions → Subscriptions × SubscriptionStateChange
flush s = (
  record { state = SubscriptionStateChange.none; subscribed = taken s.state s.subscribed },
  s.state,
)

-- `State::apply_state`
unfoldable pub apply_state :
    (is_bot : Bool)
    → List TimedEntry
    → Subscriptions
    → Option (Subscriptions × SubscriptionStateChange)
unfolding follow_active flush
apply_state is_bot active s =
    if is_bot
    then some (flush s)
    else elim (follow_active active s) [ none ↦ none | some s' ↦ some (flush s') ]

-- What `listener` does with the change: the topics at the broker, where every call succeeds.
unfoldable pub forward : SubscriptionStateChange → (subscribed broker : HashSet) → HashSet
forward SubscriptionStateChange.reset subscribed broker = insert_all subscribed []
forward (SubscriptionStateChange.change add removed) subscribed broker =
    insert_all add (remove_all removed broker)
forward SubscriptionStateChange.none subscribed broker = broker
