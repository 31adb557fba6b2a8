-- ===== src/Collect.antt =====
-- internal/collect: the generic collection engine, and why a unit of collection failed.
mod Status
pub mod Classes
pub mod Paths
pub mod Items
pub mod Transforms
pub mod Apply
pub mod Projection
pub mod Attested
pub mod Fetch
pub mod Pages
pub mod Listing
pub mod Served
pub mod Specs
pub mod Engine
pub mod Run
pub mod Kept
pub mod Units
unfoldable pub use Status.*
unfoldable pub use Paths.*
unfoldable pub use Items.*
