-- ===== src/Sluice.antt =====
-- crates/sluice: the queue port between ingest and storage.
pub mod Types
pub mod Spec
pub mod Queues
pub mod Invariant
pub mod Memory
pub mod Hex
pub mod Durable
mod Examples
