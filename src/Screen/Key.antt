-- ===== src/Screen/Key.antt =====
-- Keys, and what a screen's key handler does to the application.
use nixnas.Base.{ℕ, Bool, List, Option, some, Result, ◌≡◌, subst, arith}
use mathlib.Core.Option.{some-injective}
use nixnas.Base.Text.{Text}
use nixnas.Build.Steps.{StepState}
use nixnas.Flash.Disks.{Disk}
use nixnas.Sudo.Command.{Secret, SudoRun}

-- `KeyCode`; those that no handler names are `other_key`.
pub data KeyCode : Type 0 where
  esc enter up down page_up page_down end backspace delete other_key : KeyCode
  char : ℕ → KeyCode

-- What the outside says while one key is handled.
pub record Answers : Type 0 where
  pub disks : Result Text (List Disk)
  pub is_root : Bool
  pub sudo_on_path : Bool
  pub sudo : Secret → SudoRun
  pub log_file : Option Text  -- what `SessionLog::begin` returns
  pub device_bytes : Text → Option ℕ
  pub file_size : Text → ℕ  -- of a built image; 0 where it cannot be read
  pub yazi : Bool  -- is there an executable `yazi` on PATH
  pub human_size : ℕ → Text  -- the rounding of sizes for display is left abstract

-- What a handler leaves: the screen in a new state, possibly with a session log begun for an action,
-- or no screen and the application back at HOME.
pub data Reply (S : Type 0) : Type 0 where
  stay : S → Reply S
  begin : Text → S → Reply S
  home : Reply S

-- The screen's state after a reply, if it is still there.
abbrev pub left : {S : Type 0} → Reply S → Option S
left (stay s) = Option.some s
left (begin _ s) = Option.some s
left home = Option.none

-- The state that a reply leaves, if any, satisfies `P`.
abbrev pub Leaves : {S : Type 0} → (S → Type 0) → Reply S → Type 0
Leaves P (stay s) = P s
Leaves P (begin _ s) = P s
Leaves P home = Unit

pub Leaves-left :
    {S : Type 0} (P : S → Type 0) (r : Reply S) {s : S} → Leaves P r → left r ≡ some s → P s
Leaves-left P (stay x) h e = subst P (some-injective _ _ e) h
Leaves-left P (begin _ x) h e = subst P (some-injective _ _ e) h
Leaves-left P home h e = ground arith

-- What a screen tees into the session log while it drains a worker's events.
pub data LogCall : Type 0 where
  step : Text → StepState → LogCall
  line : Text → LogCall
  phase : Text → LogCall
  done : Bool → Text → LogCall
