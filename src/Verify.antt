-- ===== src/Verify.antt =====
-- The verification of a replay, blackbox/crates/blackbox/src/verify.
pub mod Checkpoint
pub mod Comparator
pub mod Engine
pub mod Tests
