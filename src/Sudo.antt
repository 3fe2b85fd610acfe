-- ===== src/Sudo.antt =====
-- Privilege elevation (tui/src/sudo.rs): the commands that are run with root privileges.
pub mod Command
pub mod Reader
