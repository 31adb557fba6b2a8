-- ===== src/Scan.antt =====
-- cmd/scan.go and cmd/surface.go: `pepin scan`, from the findings to the exit code.
mod Defs
unfoldable pub use Defs.*
pub mod Stages
pub mod Verdicts
pub mod Inventory
pub mod Observed
pub mod Evidence
pub mod Setup
pub mod Open
pub mod Exit
