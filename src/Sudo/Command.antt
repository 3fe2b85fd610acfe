-- ===== src/Sudo/Command.antt =====
-- Secrets, elevation and the commands that they build (tui/src/sudo.rs, lines 24-190).
pub mod Laws
use nixnas.Base.{Bool, true, false, List, [], ◌∷◌, ◌++◌, Option, none, some, if◌then◌else◌}
use nixnas.Base.Text.{Text, codes}
use nixnas.Stream.{Bytes}

-- A child process: the program, its arguments, and what is written to its stdin before that closes.
pub record Command : Type 0 where
  pub program : Text
  pub args : List Text
  pub input : Bytes

pub record Output : Type 0 where
  pub success : Bool
  pub stdout : Bytes
  pub stderr : Bytes

-- `Secret`: the password as bytes. Zeroing on drop is not visible here.
pub record Secret : Type 0 where
  pub bytes : Bytes

-- `Secret::line`: `sudo -S` wants the password with a newline.
abbrev pub line : Secret → Bytes
line s = s.bytes ++ (10 ∷ [])

pub data Elevation : Type 0 where
  root : Elevation
  sudo : Secret → Elevation

pub data Preflight : Type 0 where
  root needs_sudo no_sudo : Preflight

-- `preflight`, from what `id -u` and the scan of PATH say.
unfoldable pub preflight : Bool → Bool → Preflight
preflight is_root sudo_on_path =
    if is_root then Preflight.root else if sudo_on_path then needs_sudo else no_sudo

-- `Elevation::command` for `argv = program ∷ args`.
unfoldable pub command : Elevation → Text → List Text → Bool → Bytes → Command
command Elevation.root program args feed input = record {
  program = program;
  args = args;
  input = input;
}
command (sudo _) program args feed input = record {
  program = codes "sudo";
  args = (if feed then codes "-S" ∷ codes "-p" ∷ [] ∷ [] else codes "-n" ∷ []) ++ (program ∷ args);
  input = input;
}

-- `password_line`
unfoldable pub password_line : Elevation → Option Bytes
password_line Elevation.root = none
password_line (sudo s) = some (line s)

abbrev or_nothing : Option Bytes → Bytes
or_nothing none = []
or_nothing (some b) = b

-- The child of `run_captured`: `sudo -S`, with the password on its stdin.
unfoldable pub captured : Elevation → Text → List Text → Command
unfolding command password_line
captured e program args = command e program args true (or_nothing (password_line e))

-- The child of `run_with_input`: `sudo -n`, with data on its stdin.
unfoldable pub with_input : Elevation → Text → List Text → Bytes → Command
unfolding command
with_input e program args input = command e program args false input

-- What comes of the child `sudo -S -v`.
pub data SudoRun : Type 0 where
  spawn_not_found : SudoRun
  spawn_failed : Text → SudoRun
  exited : Bool → SudoRun
  wait_failed : Text → SudoRun

pub data AuthOutcome : Type 0 where
  ok : Elevation → AuthOutcome
  wrong missing : AuthOutcome
  error : Text → AuthOutcome

-- `authenticate`, from what comes of the child that the typed password is fed to.
unfoldable pub authenticate : (Secret → SudoRun) → Bytes → AuthOutcome
authenticate run password =
    let secret : Secret = record { bytes = password } in
    elim (run secret) [
      | spawn_not_found ↦ missing
      | spawn_failed e ↦ error (codes "running sudo: " ++ e)
      | exited success ↦ if success then AuthOutcome.ok (sudo secret) else wrong
      | wait_failed e ↦ error (codes "waiting for sudo: " ++ e)
    ]
