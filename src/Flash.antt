-- ===== src/Flash.antt =====
-- The trading system's own parts, flash/src.
pub mod Order
pub mod Book
pub mod Delta
pub mod Snapshot
pub mod Heartbeat
pub mod Tests
