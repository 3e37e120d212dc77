-- ===== src/Journal/Tests.antt =====
-- Runs of the journal's parts on small inputs.
pub mod Ring
pub mod File
pub mod Session
