-- ===== src/Routes.antt =====
-- crates/delta/src/routes/servers: the handlers that change roles, permissions and members of a
-- server, over the stores in memory.
pub mod World
pub mod Ranking
pub mod Roles
pub mod Grants
pub mod Responds
pub mod Standing
pub mod Order
pub mod Removal
pub mod Checks
pub mod VoiceMove
pub mod MemberEdit
