-- ===== src/Eim.antt =====
-- internal/eimpolicy: the inline policies of the users and of the groups.
pub mod Reading
pub mod Policies
pub mod Turns
