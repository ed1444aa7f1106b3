-- ===== src/Cinder.antt =====
-- crates/cinder: the tier of every item, its migration by age, and the store that keeps it.
pub mod Types
pub mod Sweep
pub mod Memory
pub mod Evaluate
pub mod Again
pub mod Durable
mod Examples
