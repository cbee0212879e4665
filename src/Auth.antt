-- ===== src/Auth.antt =====
-- The auth component.
pub mod Jwt
pub mod Guard
pub mod Service
pub mod Profile
pub mod Controller
pub mod Admin
pub mod Login
pub mod Unlock
pub mod Lockout
pub mod LockEnds
pub mod Bearer
pub mod Refresh
