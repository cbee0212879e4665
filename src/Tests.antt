-- ===== src/Tests.antt =====
-- Concrete platforms and states, tests of the definitions, and the theorems at concrete inputs.
mod Codec
mod Written
mod Demo
mod Login
mod Sessions
mod Factor
mod Crypt
mod Siem
mod Absent
mod Biometric
mod Audit
mod Sorted
mod Tamper
mod Stream
mod Standard
mod Shipped
mod Logging
mod Seed
mod Grants
mod Flows
mod Notifications
mod Enrolment
mod Bearer
mod Isolation
