-- ===== src/Screen.antt =====
-- The screens of the terminal interface (tui/src/ui/): their state machines, without the drawing.
pub mod Key
pub mod Flash
pub mod BuildFlash
pub mod Verify
pub mod Build
pub mod Configure
pub mod App
pub mod Home
pub mod Main
pub mod Runs
