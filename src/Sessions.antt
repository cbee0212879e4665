-- ===== src/Sessions.antt =====
-- The sessions component.
pub mod Entity
pub mod Service
pub mod Drawn
pub mod Plain
pub mod Grants
pub mod Apart
pub mod Laws
pub mod Refinement
