-- ===== src/QueryApi/Matrix.antt =====
-- crates/query-api/src/matrix.rs: from rows to series.
pub mod Labels
pub mod Series
pub mod Filter
pub mod Merged
pub mod Grouped
pub mod Kept
