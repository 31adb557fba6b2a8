-- ===== src/Assess/Diff.antt =====
-- internal/assess/diff.go: the comparison of the results of two bundles.
mod Defs
pub mod Indexing
pub mod Changes
pub mod Report
unfoldable pub use Defs.*
