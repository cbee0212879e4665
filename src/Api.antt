-- ===== src/Api.antt =====
-- The endpoints as steps of one stored state, in any order and with any inputs.
pub mod Kept
pub mod KeptMfa
pub mod Invariant
pub mod Others
pub mod OthersMfa
pub mod Isolation
pub mod Absent
