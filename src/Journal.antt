-- ===== src/Journal.antt =====
-- The journal of the flight recorder, blackbox/crates/blackbox/src/journal.
pub mod Format
pub mod Ring
pub mod Entry
pub mod Schema
pub mod Writer
pub mod Reader
pub mod RoundTrip
pub mod Tests
