-- ===== src/Build.antt =====
-- Building an image (tui/src/build.rs).
pub mod Steps
pub mod Target
pub mod Effects
pub mod Secrets
pub mod Pipeline
