-- ===== src/Beacon.antt =====
-- company-beacon-signal: the peer-to-peer signalling service.
pub mod State
pub mod Sessions
pub mod Limiter
pub mod Token
pub mod Messages
pub mod Socket
pub mod Server
pub mod Admission
