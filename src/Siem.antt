-- ===== src/Siem.antt =====
-- The hash-chained log for the security monitoring.
pub mod Logger
pub mod EventType
pub mod Digest
pub mod Walk
pub mod Files
pub mod Chain
pub mod Contents
pub mod Tamper
pub mod Ingest
pub mod Signed
pub mod Stream
pub mod Settle
pub mod Serving
pub mod Document
pub mod Standard
pub mod Forward
pub mod Shipped
