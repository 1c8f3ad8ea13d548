-- ===== src/Events/Incoming/Finishing.antt =====
-- What follows the match on an incoming event returns.
use company_backend.Prelude.{
  Ident, ◌≡◌, refl, ◌∙◌, Bool, true, false, Option, none, some, contains, inl, inr, ◌⊎◌,
}
use company_backend.Events.Subscriptions.{topic}
use company_backend.Events.Cache.{Outside}
use company_backend.Events.Connection.{Connection, Event, Delivery}
use company_backend.Events.Connection.Returns.{
  is_reset, is_reset-insert_subscription, KnowsItself, unsubscribe_returns,
}
use company_backend.Events.Connection.Recalculation.{recalculate_server_returns}
use company_backend.Events.Reaction.{Queue, Step, nothing}
use company_backend.Events.Incoming.{recalculate_queued, add_queued, remove_queued, finish}

-- No reset is queued, and the user's own row is cached.
abbrev pub IsReady : Connection → Type 0
IsReady s = (is_reset s.topics.state ≡ false) × KnowsItself s

-- What the match has left can be finished.
abbrev pub CanFinish : Step → Type 0
CanFinish (Step.stop s) = Unit
CanFinish (Step.go s event queue) =
    (queue ≡ nothing) ⊎ (IsReady s × ((queue.server ≡ none) ⊎ (queue.remove ≡ none)))

-- The event is passed on.
abbrev pub goes : Step → Bool
goes (Step.stop s) = false
goes (Step.go s event queue) = true

-- A user update that has been handled before.
abbrev pub is_repeated : Event → Connection → Bool
is_repeated (Event.user_update (some id)) s = contains s.cache.seen_events id
is_repeated event s = false

abbrev pub is_sent : Option Delivery → Bool
is_sent none = false
is_sent (some d) = true

recalculate_queued_returns :
    (outside : Outside) (server : Option Ident) (event : Event) (s : Connection)
    → IsReady s
    → (s' : Connection) × (d : Delivery) × (recalculate_queued outside server event s
        ≡ some (s', d))
recalculate_queued_returns outside none event s ready = (s, Delivery.single event, refl)
recalculate_queued_returns outside (some id) event s ready =
    recalculate_server_returns outside id event s ready.0 ready.1

is_reset-add_queued :
    (add : Option Ident) (s : Connection)
    → is_reset (add_queued add s).topics.state ≡ is_reset s.topics.state
is_reset-add_queued none s = refl
is_reset-add_queued (some id) s = is_reset-insert_subscription (topic id) s.topics

remove_queued_returns :
    (removed : Option Ident) (s : Connection)
    → is_reset s.topics.state ≡ false
    → (s' : Connection) × (remove_queued removed s ≡ some s')
remove_queued_returns none s h = (s, refl)
remove_queued_returns (some id) s h = let (s', e, _) = unsubscribe_returns (topic id) s h in (s', e)

finish_queue_returns :
    (outside : Outside) (s : Connection) (event : Event) (queue : Queue)
    → IsReady s
    → (queue.server ≡ none) ⊎ (queue.remove ≡ none)
    → (s' : Connection) × (d : Delivery) × (finish outside (Step.go s event queue)
        ≡ some (s', some d))
finish_queue_returns outside s event queue ready (inl calm) =
    let (s', e) =
      remove_queued_returns queue.remove (add_queued queue.add s)
        (is_reset-add_queued queue.add s ∙ ready.0) in
    (s', Delivery.single event, rw (finish, calm, e) refl)
finish_queue_returns outside s event queue ready (inr calm) =
    let (r, d, e) = recalculate_queued_returns outside queue.server event s ready in
    (add_queued queue.add r, d, rw (finish, e, calm) refl)

pub finish_returns :
    (outside : Outside) (step : Step)
    → CanFinish step
    → (s' : Connection) × (d : Option Delivery) × (finish outside step ≡ some (s', d))
      × (is_sent d ≡ goes step)
finish_returns outside (Step.stop s) h = (s, none, refl, refl)
finish_returns outside (Step.go s event queue) (inl idle) =
    (s, some (Delivery.single event), rw idle refl, refl)
finish_returns outside (Step.go s event queue) (inr (ready, calm)) =
    let (s', d, e) = finish_queue_returns outside s event queue ready calm in (s', some d, e, refl)
