-- ===== src/Log.antt =====
-- The session log (tui/src/logging.rs).
pub mod Timestamp
pub mod Session
