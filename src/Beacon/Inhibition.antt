-- ===== src/Beacon/Inhibition.antt =====
-- crates/beacon/src/inhibition.rs: which emissions of the rules reach the sinks.
pub mod Resolver
pub mod Suppressed
pub mod Held
pub mod Deliveries
pub mod Paired
pub mod Reload
pub mod Backed
pub mod Runs
