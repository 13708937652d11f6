-- ===== src/Shared.antt =====
-- What both sides share (src/shared).
pub mod Text
pub mod Membership
pub mod Fingerprints
