-- ===== src/Notifications.antt =====
-- The push notifications: their types, texts and service, and the endpoints that try them.
pub mod Types
pub mod Texts
pub mod Service
pub mod Controller
pub mod Guarantees
pub mod Start
