-- ===== src/Tests.antt =====
-- The theorems applied to concrete inputs.
mod Permissions
mod Queries
mod Routes
mod Signaling
mod Relationships
mod Tiers
mod Bulk
mod Messages
mod Events
mod Stores
