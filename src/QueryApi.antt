-- ===== src/QueryApi.antt =====
-- crates/query-api: the queries for metrics.
pub mod Selector
pub mod Matrix
pub mod Handler
pub mod OverPulse
mod Examples
