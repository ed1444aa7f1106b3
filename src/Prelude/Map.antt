-- ===== src/Prelude/Map.antt =====
-- Rust's maps: the operations, their laws, and sums over a map's values.
mod Defs
mod Laws
mod Sums
mod Rebuild
unfoldable pub use Defs.*
pub use Laws.*
pub use Sums.*
unfoldable pub use Rebuild.*
