-- ===== src/Assess.antt =====
-- internal/assess: from findings and an inventory to an assessment.
pub mod Tables
pub mod Attributes
pub mod Reasons
pub mod Same
pub mod Build
pub mod Provenance
pub mod AttestedAbsence
pub mod Degrade
pub mod Relaxations
pub mod Inconclusive
pub mod Diff
