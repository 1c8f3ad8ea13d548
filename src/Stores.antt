-- ===== src/Stores.antt =====
-- crates/core/database/src/models: three more of the stores kept in memory.
pub mod Files
pub mod Members
pub mod Unreads
pub mod Servers
