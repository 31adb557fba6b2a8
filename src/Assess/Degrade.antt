-- ===== src/Assess/Degrade.antt =====
-- internal/assess/collection.go: what an incomplete collection does to the verdicts.
mod Defs
pub mod Controls
pub mod Direction
unfoldable pub use Defs.*
