-- ===== src/Permissions.antt =====
-- crates/core/permissions: flags and values, and the calculators over an abstract query.
pub mod Flags
pub mod Override
pub mod Value
pub mod Query
pub mod Calculate
pub mod Verdict
pub mod FlagBits
