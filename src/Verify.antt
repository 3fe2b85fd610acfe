-- ===== src/Verify.antt =====
-- Read-only checks of an image or a device (tui/src/verify.rs).
pub mod Window
pub mod Events
pub mod Hash
pub mod Steps
pub mod Run
pub mod Layout
