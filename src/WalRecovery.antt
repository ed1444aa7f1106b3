-- ===== src/WalRecovery.antt =====
-- crates/wal-recovery/src/lib.rs: the replay of a log of NDJSON lines that tolerates a torn last line.
pub mod Utf8
pub mod Replay
pub mod Lines
pub mod Json
pub mod Prefix
pub mod Crash
pub mod Switches
mod Examples
