-- ===== src/Model.antt =====
-- internal/model: the normalized inventory and its collection state.
pub mod Collection
pub mod Resource
pub mod Json
