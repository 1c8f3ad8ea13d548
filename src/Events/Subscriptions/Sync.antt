-- ===== src/Events/Subscriptions/Sync.antt =====
-- The topics of the event server against those at the broker.
use company_backend.Prelude.{
  Ident, ◌≡◌, true, false, not, ◌&&◌, ◌||◌, some, List, [], ◌∷◌, contains, arith, Option-cases,
  Bool-cases, inl, inr,
}
use company_backend.Prelude.HashSet.{
  HashSet, remove, insert_all, remove_all, contains-remove, contains-insert_all,
  contains-remove_all, contains-append,
}
use mathlib.Core.Path.{subst}
use mathlib.Core.Option.{some_inj}
use company_backend.Events.Subscriptions.Change.{SubscriptionStateChange}
use company_backend.Events.Subscriptions.{
  Subscriptions, from, reset_state, queue_add, insert_subscription, queue_remove, removed_from,
  remove_subscription, taken, flush, forward,
}

-- The two lists of a queued change.
abbrev pub added : SubscriptionStateChange → List Ident
added (SubscriptionStateChange.change add removed) = add
added _ = []

abbrev pub dropped : SubscriptionStateChange → List Ident
dropped (SubscriptionStateChange.change add removed) = removed
dropped _ = []

-- The broker will agree once the queued change is forwarded, for a topic that is in one list of it
-- at most. A reset starts anew.
abbrev pub Agrees : Ident → SubscriptionStateChange → (subscribed broker : HashSet) → Type 0
Agrees t SubscriptionStateChange.reset subscribed broker = Unit
Agrees t SubscriptionStateChange.none subscribed broker = contains subscribed t ≡ contains broker t
Agrees t (SubscriptionStateChange.change add removed) subscribed broker =
    (contains subscribed t ≡ ((contains broker t && not (contains removed t)) || contains add t))
    × ((contains add t && contains removed t) ≡ false)

-- The state of a client's connection, and the topics of its subscriber at the broker.
pub record Link : Type 0 where
  pub local : Subscriptions
  pub broker : HashSet

abbrev pub InSync : Link → Type 0
InSync l = (t : Ident) → Agrees t l.local.state l.local.subscribed l.broker

-- One call, or one round of `listener`. Between two rounds no topic is both added and removed.
pub data Step (l : Link) : Link → Type 0 where
  inserts :
      (t : Ident)
      → contains (dropped l.local.state) t ≡ false
      → Step l (record l { local = insert_subscription t l.local })
  removes :
      (t : Ident) (s : Subscriptions)
      → contains (added l.local.state) t ≡ false
      → remove_subscription t l.local ≡ some s
      → Step l (record l { local = s })
  resets : Step l (record l { local = reset_state l.local })
  forwards : Step l (record {
    local = (flush l.local).0;
    broker = forward (flush l.local).1 (flush l.local).0.subscribed l.broker;
  })

pub data Reach (l : Link) : Link → Type 0 where
  here : Reach l l
  next : {m n : Link} → Reach l m → Step m n → Reach l n

add-Agrees :
    (t u : Ident) (state : SubscriptionStateChange) (subscribed broker : HashSet)
    → contains (dropped state) t ≡ false
    → contains subscribed t ≡ false
    → Agrees u state subscribed broker
    → Agrees u (queue_add t state) (t ∷ subscribed) broker
add-Agrees t u SubscriptionStateChange.reset subscribed broker d n h = tt
add-Agrees t u SubscriptionStateChange.none subscribed broker d n h = ground arith
add-Agrees t u (SubscriptionStateChange.change add removed) subscribed broker d n h =
    ground (arith, contains-append u add (t ∷ []))

remove-Agrees :
    (t u : Ident) (state state' : SubscriptionStateChange) (subscribed broker : HashSet)
    → contains (added state) t ≡ false
    → queue_remove t state ≡ some state'
    → Agrees u state subscribed broker
    → Agrees u state' (remove t subscribed) broker
remove-Agrees t u SubscriptionStateChange.reset state' subscribed broker d e h = cc
remove-Agrees t u SubscriptionStateChange.none state' subscribed broker d e h =
    subst (λ c. Agrees u c (remove t subscribed) broker) (some_inj.0 e)
      (ground (arith, contains-remove t u subscribed))
remove-Agrees t u (SubscriptionStateChange.change add removed) state' subscribed broker d e h =
    subst (λ c. Agrees u c (remove t subscribed) broker) (some_inj.0 e)
      (ground (arith, contains-remove t u subscribed, contains-append u removed (t ∷ [])))

inserts-InSync :
    (t u : Ident) (s : Subscriptions) (broker : HashSet)
    → contains (dropped s.state) t ≡ false
    → Agrees u s.state s.subscribed broker
    → Agrees u (insert_subscription t s).state (insert_subscription t s).subscribed broker
unfolding insert_subscription
inserts-InSync t u s broker d h = elim (Bool-cases (contains s.subscribed t)) [
  | inl old ↦ rw old h
  | inr new ↦ rw new (add-Agrees t u s.state s.subscribed broker d new h)
]

removes-InSync :
    (t u : Ident) (s s' : Subscriptions) (broker : HashSet)
    → contains (added s.state) t ≡ false
    → remove_subscription t s ≡ some s'
    → Agrees u s.state s.subscribed broker
    → Agrees u s'.state s'.subscribed broker
unfolding remove_subscription
removes-InSync t u s s' broker d e h = elim (Bool-cases (contains s.subscribed t)) [
  | inr gone ↦
      let same : some s ≡ some s' = rw (gone, remove_subscription) at e in
      subst (λ (r : Subscriptions). Agrees u r.state r.subscribed broker) (some_inj.0 same) h
  | inl there ↦
      let left : removed_from t s (queue_remove t s.state) ≡ some s' =
        rw (there, remove_subscription) at e in
      elim (Option-cases (queue_remove t s.state)) [
        | inl stuck ↦ cc (rw stuck at left)
        | inr (state, q) ↦
            let same : some (record { state = state; subscribed = remove t s.subscribed })
                ≡ some s' =
              rw q at left in
            subst (λ (r : Subscriptions). Agrees u r.state r.subscribed broker) (some_inj.0 same)
              (remove-Agrees t u s.state state s.subscribed broker d q h)
      ]
]

forward-Agrees :
    (u : Ident) (state : SubscriptionStateChange) (subscribed broker : HashSet)
    → Agrees u state subscribed broker
    → contains (taken state subscribed) u
      ≡ contains (forward state (taken state subscribed) broker) u
unfolding forward
forward-Agrees u SubscriptionStateChange.reset subscribed broker h =
    ground (arith, contains-insert_all u subscribed [])
forward-Agrees u SubscriptionStateChange.none subscribed broker h = h
forward-Agrees u (SubscriptionStateChange.change add removed) subscribed broker h = ground (
  arith,
  contains-insert_all u add subscribed,
  contains-remove_all u removed (insert_all add subscribed),
  contains-remove_all u removed broker,
  contains-insert_all u add (remove_all removed broker),
)

Step-InSync : {l m : Link} → Step l m → InSync l → InSync m
unfolding flush reset_state
Step-InSync {l} (inserts t d) h u = inserts-InSync t u l.local l.broker d (h u)
Step-InSync {l} (removes t s d e) h u = removes-InSync t u l.local s l.broker d e (h u)
Step-InSync {l} resets h u = tt
Step-InSync {l} forwards h u = forward-Agrees u l.local.state l.local.subscribed l.broker (h u)

Reach-InSync : {l m : Link} → InSync l → Reach l m → InSync m
Reach-InSync h here = h
Reach-InSync h (next r step) = Step-InSync step (Reach-InSync h r)

-- A fresh connection of a user.
abbrev pub opened : Ident → Link
opened user = record { local = from user; broker = [] }

opened-InSync : (user : Ident) → InSync (opened user)
unfolding from
opened-InSync user t = tt

-- Whatever a connection does from its start on, if between two rounds of the listener no topic is
-- both added and removed, then after each round the client is subscribed at the broker to exactly
-- the topics in `subscribed`.
pub round-agrees :
    {l : Link} (user t : Ident)
    → Reach (opened user) l
    → let (s, queued) = flush l.local in
      contains s.subscribed t ≡ contains (forward queued s.subscribed l.broker) t
unfolding flush
round-agrees {l} user t r =
    forward-Agrees t l.local.state l.local.subscribed l.broker
      (Reach-InSync (opened-InSync user) r t)

churned : Ident → HashSet → Subscriptions
churned t subscribed = record {
  state = SubscriptionStateChange.change (t ∷ []) (t ∷ []);
  subscribed = remove t (t ∷ subscribed);
}

churn :
    (t : Ident) (subscribed : HashSet)
    → contains subscribed t ≡ false
    → remove_subscription t (
        insert_subscription t
          (record { state = SubscriptionStateChange.none; subscribed = subscribed }))
      ≡ some (churned t subscribed)
unfolding churned insert_subscription remove_subscription
churn t subscribed new = ground arith

-- A topic that is added and then removed between two rounds: the client is not subscribed to it,
-- but the next round subscribes at the broker, whatever was subscribed there.
pub churn_leaks :
    (t : Ident) (subscribed broker : HashSet)
    → contains subscribed t ≡ false
    → (s : Subscriptions) × (remove_subscription t (
          insert_subscription t
            (record { state = SubscriptionStateChange.none; subscribed = subscribed }))
        ≡ some s)
      × (contains (flush s).0.subscribed t ≡ false)
      × (contains (forward (flush s).1 (flush s).0.subscribed broker) t ≡ true)
unfolding churned flush forward
churn_leaks t subscribed broker new = (
  churned t subscribed,
  churn t subscribed new,
  ground (arith, contains-remove_all t (t ∷ []) (insert_all (t ∷ []) (remove t (t ∷ subscribed)))),
  ground (arith, contains-insert_all t (t ∷ []) (remove_all (t ∷ []) broker)),
)
