-- ===== src/Terraform.antt =====
-- internal/tfparse and internal/tfmap: the resources of a Terraform plan.
pub mod Plan
pub mod Addresses
pub mod Origins
pub mod References
pub mod Parse
pub mod Only
pub mod Refers
pub mod Filling
pub mod Mapping
pub mod Unmapped
