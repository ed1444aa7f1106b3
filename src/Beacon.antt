-- ===== src/Beacon.antt =====
-- crates/beacon: the alerting rules, as a state machine per rule and the inhibition between rules.
pub mod Types
pub mod StateMachine
pub mod Dwell
pub mod Inhibition
pub mod States
mod Examples
