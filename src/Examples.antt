-- ===== src/Examples.antt =====
-- Concrete runs: a tenant, its collection, and each theorem at it.
mod Data
mod Collecting
mod Building
mod Passes
mod Exits
mod Inventory
mod Comparing
mod Refusals
mod Live
mod Crypto
mod Plan
mod Endless
mod Settings
