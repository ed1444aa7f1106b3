-- ===== src/Sluice/Durable.antt =====
-- crates/sluice/src/file_backed.rs: `FileBackedQueue`, its log and its snapshot.
pub mod Log
pub mod Snapshot
pub mod Queue
pub mod Replay
pub mod Bytes
pub mod Recovery
pub mod Calls
pub mod Totals
pub mod Reopen
pub mod Crash
pub mod Faults
