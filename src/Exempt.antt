-- ===== src/Exempt.antt =====
-- internal/exempt: the exemptions of a policy file, and what they do to an assessment.
mod Defs
mod Spec
pub mod Effect
pub mod Statuses
unfoldable pub use Defs.*
unfoldable pub use Spec.*
