-- ===== src/Cinder/Durable.antt =====
-- crates/cinder/src/file_backed.rs: the tiers kept in a log with a snapshot.
pub mod Records
pub mod Store
pub mod Effects
pub mod Saved
pub mod Calls
pub mod Recovery
pub mod Faults
pub mod TornAppend
pub mod Equivalence
