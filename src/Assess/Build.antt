-- ===== src/Assess/Build.antt =====
-- internal/assess/assess.go: `Build`.
mod Defs
pub mod Verdicts
pub mod Pass
unfoldable pub use Defs.*
