-- ===== src/Flash.antt =====
-- Flashing an image (tui/src/flash.rs).
pub mod Copy
pub mod Disks
pub mod Events
pub mod Grow
pub mod Partition
pub mod Run
