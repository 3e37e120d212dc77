-- ===== src/Replay.antt =====
-- The replay of a journal, blackbox/crates/blackbox/src/replay. An `i64` is as in Base/Signed.
pub mod Clock
pub mod Scheduler
pub mod Source
pub mod Engine
pub mod Tests
