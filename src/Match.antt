-- ===== src/Match.antt =====
-- psi_match
pub mod Compare
pub mod Reader
pub mod Slots
pub mod Setup
pub mod Wire
pub mod Session
