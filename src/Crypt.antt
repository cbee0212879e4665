-- ===== src/Crypt.antt =====
-- Encryption of stored texts.
pub mod Token
pub mod Fields
pub mod RoundTrip
pub mod Keys
pub mod Endpoints
