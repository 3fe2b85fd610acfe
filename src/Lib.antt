-- ===== src/Lib.antt =====
-- The terminal program of nixnas (tui/src): it builds the image of a NAS on a USB stick, flashes it onto
-- a device and verifies the result. The library models the program's own logic; what is proved of
-- it is listed under Results.
--
-- The parts and their files:
--   * Base, Stream: lists, texts, decimal numbers, paths, results with state (Io), and what the program
--     relies on in std::io::Read and Seek (IsStream, IsSeekable).
--   * Sudo (tui/src/sudo.rs): secrets, the choice of elevation, the argv and stdin of elevated children
--     (Sudo/Command), and SudoReader, which reads a device through `sudo dd` with a cache of one block
--     (Sudo/Reader). The host that runs commands is a function of those already run and the next one.
--   * Flash (tui/src/flash.rs): the byte loops copy_with_progress, read_prefix and same_prefix
--     (Flash/Copy), the listing of disks from the JSON of lsblk (Flash/Disks), the worker's protocol
--     (Flash/Events), the order of the steps of run_flash (Flash/Run), and the workbench grow of the
--     store, grow_f2fs_in_luks, as effects on a host that answers by what was done before (Flash/Grow),
--     after that of its partition by sgdisk, grow_last_partition (Flash/Partition; what its
--     parsers read is stated of the lines of the reports in Flash/Partition/Report and Listing).
--   * Verify (tui/src/verify.rs): the read-only window on a partition (SliceCursor, Verify/Window), the
--     checks on what was read (Verify/Layout), the hashing passes (Verify/Hash), and run_verify as a run
--     over a handle, the events sent and the issues found: its first four steps (Verify/Steps), the
--     whole-target check and the verdict (Verify/Run). The crates gpt, fatfs and sha2 are parameters.
--   * Config (tui/src/config.rs): the settings, and their merge into the table that the file holds.
--   * Log (tui/src/logging.rs): the time stamp of a session log's name (Log/Timestamp), and the files
--     of a session in the directory of the logs (Log/Session, SessionLog).
--   * Build (tui/src/build.rs): the checklist, the worker's protocol (Build/Steps), the size gate
--     (Build/Target), and run_pipeline: its effects on a host that answers by what was done before
--     (Build/Effects, with the guards of its secrets, whose removals may fail), the steps that put the
--     secrets in RAM (Build/Secrets), the evaluation and the run of the image script (Build/Pipeline).
--   * Screen (tui/src/ui): the state machines of the FLASH screen (Screen/Flash, ui/flash.rs), of
--     the BUILD & FLASH screen (Screen/BuildFlash, ui/buildflash.rs), of the VERIFY screen
--     (Screen/Verify, ui/verify.rs), of the BUILD screen (Screen/Build, ui/build.rs), of
--     CONFIGURE with its file browser (Screen/Configure, ui/configure.rs) and of HOME (Screen/Home,
--     ui/home.rs); the application with all of them, the session log and the settings' file (Screen/App,
--     main.rs), its keys (Screen/Main), and its runs (Screen/Runs). No other program changes the
--     settings' file or the directory of the logs meanwhile. A key handler maps a screen to a Reply:
--     the screen in a new state, with or without a session log begun, or no screen and the way home. What
--     the handler asks of the system meanwhile is an argument (Answers). A running worker is kept as the
--     arguments that it was given, in the place of the receiver of its events.
--   * Tests: runs on concrete inputs.
--
-- Bounds and fuel: the prefix loop runs on fuel equal to the number of bytes wanted and ends by its own
-- test; the copy loop has a fuel argument and an error out_of_fuel that the source lacks. Words of 64
-- bits wrap where the source casts (`as u64`); positions and lengths of streams are plain numbers.
-- The loops that wait for a partition have the source's own bound of 50 rounds.
--
-- Not modelled: drawing (ratatui), the parsers of TOML and JSON, the crates for GPT, FAT and SHA-256
-- (third-party code), the rounding of sizes for display (floating point), the zeroing of memory and
-- of a secret's file before its removal, the encoding of texts as UTF-8 (a text is a list of code
-- points; the reports of children are decoded as by from_utf8_lossy, Base/Utf8), the buffering of
-- the session log, the run of the external path picker, and the setup of the terminal. The flake,
-- the NixOS modules and the scripts of the repository are not Rust.
pub mod Base
pub mod Build
pub mod Config
pub mod Flash
pub mod Log
pub mod Screen
pub mod Stream
pub mod Sudo
pub mod Tests
pub mod Verify
