-- ===== src/DatabaseQuery.antt =====
-- `DatabasePermissionQuery` of crates/core/database/src/util/permissions.rs, the implementation of
-- `PermissionQuery` over database rows, and what the calculators compute with it.
pub mod State
pub mod Roles
pub mod Methods
pub mod Ranks
pub mod ServerFlags
pub mod ChannelFlags
pub mod UserFlags
pub mod PrivateChannels
pub mod Totality
