-- ===== src/Policy.antt =====
-- internal/policy: the settings of the controls, and when one of them relaxes a requirement.
mod Defs
pub mod Holds
pub mod Resolve
pub mod Usable
unfoldable pub use Defs.*
