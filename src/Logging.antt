-- ===== src/Logging.antt =====
-- The labels and the buffer of the Loki transport, and the check of a log entry.
pub mod Loki
pub mod Info
pub mod Labels
pub mod Delivery
pub mod Post
pub mod Json
pub mod LogSchema
pub mod Format
pub mod Schema
pub mod Conform
pub mod Conforming
