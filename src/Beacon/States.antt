-- ===== src/Beacon/States.antt =====
-- crates/beacon/src/state_store.rs: the states of the rules, kept over restarts.
pub mod Records
pub mod Store
pub mod Saved
pub mod Recovery
mod Examples
