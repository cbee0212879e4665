-- ===== src/Mfa.antt =====
-- The second factor: backup codes, the stored secrets, and the handlers.
pub mod Code
pub mod BackupCodes
pub mod Handlers
pub mod Verify
pub mod CodeLaws
pub mod Challenge
pub mod Guarantees
pub mod SignIn
pub mod Enrolment
pub mod Biometric
