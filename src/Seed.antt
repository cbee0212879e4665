-- ===== src/Seed.antt =====
-- The scripts that an operator runs on the table of users.
pub mod Scripts
pub mod Restored
