-- ===== src/Users.antt =====
-- The users component.
pub mod Entity
pub mod Service
pub mod Coherent
pub mod Kept
pub mod Others
