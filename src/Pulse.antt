-- ===== src/Pulse.antt =====
-- crates/pulse: the store of metrics in memory.
pub mod Types
pub mod Predicate
pub mod Store
pub mod Sums
pub mod Cap
pub mod Points
pub mod Sorted
pub mod Ordered
pub mod Samples
mod Examples
