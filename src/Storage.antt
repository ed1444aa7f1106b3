-- ===== src/Storage.antt =====
-- The log that the stores share: `append_wal` of cinder, lumen, pulse, ray and beacon is the same code.
pub mod Log
pub mod Replayed
