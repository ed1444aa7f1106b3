-- ===== src/Codex.antt =====
-- crates/codex: the distance between names and the suggestion it chooses.
pub mod Fuzzy
pub mod Distance
pub mod Scripts
pub mod Nearest
mod Examples
