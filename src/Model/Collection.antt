-- ===== src/Model/Collection.antt =====
-- internal/model/collection.go: what a scan could read, unit by unit.
mod Defs
pub mod Lookup
pub mod Invariant
pub mod Merge
pub mod Incomplete
unfoldable pub use Defs.*
pub use Lookup.*
