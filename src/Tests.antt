-- ===== src/Tests.antt =====
-- Runs of the development on concrete inputs.
pub mod Streams
pub mod Elevated
pub mod Screens
pub mod Files
pub mod Turnkey
pub mod Flashing
pub mod Verifying
pub mod Hashing
pub mod Building
pub mod Logging
pub mod Application
pub mod Partition
