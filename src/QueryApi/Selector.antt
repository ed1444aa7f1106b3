-- ===== src/QueryApi/Selector.antt =====
-- crates/query-api/src/selector.rs: the selectors of a metric query.
pub mod Characters
pub mod Parser
pub mod Grammar
pub mod Complete
pub mod Accepts
pub mod Sound
pub mod Loop
pub mod Grammatical
