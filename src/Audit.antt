-- ===== src/Audit.antt =====
-- The audit log component.
pub mod Entity
pub mod Service
pub mod Trail
pub mod Newest
