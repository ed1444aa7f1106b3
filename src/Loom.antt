-- ===== src/Loom.antt =====
-- crates/loom: the change control of the rules of beacon.
pub mod Apply
pub mod Applied
pub mod Synced
mod Examples
pub mod Same
pub mod Plan
pub mod Names
pub mod Fields
pub mod Differences
