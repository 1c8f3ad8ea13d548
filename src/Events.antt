-- ===== src/Events.antt =====
-- crates/bonfire: the event server.
pub mod Subscriptions
pub mod Cache
pub mod Connection
pub mod Reaction
pub mod Ready
pub mod Incoming
