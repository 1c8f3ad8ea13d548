-- ===== src/Events/Subscriptions/Change.antt =====
-- `SubscriptionStateChange` of crates/bonfire/src/events/state.rs.
use company_backend.Prelude.{Ident, List}

pub data SubscriptionStateChange : Type 0 where
  none reset : SubscriptionStateChange
  change : (add remove : List Ident) → SubscriptionStateChange
