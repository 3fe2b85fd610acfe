-- ===== src/Screen/Verify.antt =====
-- The VERIFY screen (tui/src/ui/verify.rs): its state, and the start of its worker.
pub mod Gates
pub mod Keys
pub mod Events
pub mod Reach
use nixnas.Base.{
  ℕ, ◌-◌, min, Bool, true, false, List, [], Option, none, some, Result, ok, err, length, get_elem?,
  replicate,
}
use nixnas.Base.Text.{Text, codes}
use nixnas.Build.Steps.{StepState, pending}
use nixnas.Flash.Disks.{Disk}
use nixnas.Sudo.Command.{Elevation}
use nixnas.Screen.Key.{Reply, begin}

pub data VerifyMode : Type 0 where
  image install : VerifyMode

pub data Phase : Type 0 where
  devices running : Phase
  sudo_pass : Text → Option Text → Phase
  done : Bool → Phase

-- The arguments of `spawn_verify_image` and `spawn_verify_install`.
pub data Job : Type 0 where
  check_image : Text → Job
  check_install : (dev : Text) (reference : Option Text) → Elevation → Job

pub record VerifyScreen : Type 0 where
  pub mode : VerifyMode
  pub phase : Phase
  pub steps : List StepState
  pub details : List Text
  pub scroll : ℕ
  pub follow : Bool
  pub rx : Option Job
  pub skip : Bool  -- the flag shared with the worker
  pub image : Option (Text × ℕ)
  pub disks : List Disk
  pub selected : ℕ
  pub list_error : Option Text
  pub pending_dev : Option Text
  pub gauge_title : Text
  pub progress : ℕ × ℕ
  pub message : Option Text
  pub session_log : Option Text

-- `VerifyScreen::empty`
abbrev pub empty : VerifyMode → VerifyScreen
empty mode = record {
  mode = mode;
  phase = devices;
  steps = replicate 5 pending;
  details = [];
  scroll = 0;
  follow = true;
  rx = none;
  skip = false;
  image = none;
  disks = [];
  selected = 0;
  list_error = none;
  pending_dev = none;
  gauge_title = [];
  progress = (0, 0);
  message = none;
  session_log = none;
}

-- `VerifyScreen::new_image`, from the search for a built image and its size.
unfoldable pub new_image : Result Text (Text × ℕ) → VerifyScreen
new_image (ok (img, size)) = record (empty VerifyMode.image) {
  rx = some (check_image img);
  image = some (img, size);
  phase = running;
}
new_image (err e) = record (empty VerifyMode.image) { message = some e; phase = done false }

-- `refresh_disks`
unfoldable pub refresh_disks : Result Text (List Disk) → VerifyScreen → VerifyScreen
refresh_disks (ok disks) st = record st {
  disks = disks;
  list_error = none;
  selected = min st.selected (length disks - 1);
}
refresh_disks (err e) st = record st { disks = []; list_error = some e; selected = 0 }

-- `VerifyScreen::new_install`; a missing image only leaves out the fidelity compare.
unfoldable pub new_install : Option (Text × ℕ) → Result Text (List Disk) → VerifyScreen
unfolding refresh_disks
new_install found disks = refresh_disks disks (record (empty install) { image = found })

abbrev pub is_running : VerifyScreen → Bool
is_running st = elim st.phase [ running ↦ true | _ ↦ false ]

abbrev pub selected_disk : VerifyScreen → Option Disk
selected_disk st = get_elem? st.disks st.selected

abbrev pub image_path : Option (Text × ℕ) → Option Text
image_path none = none
image_path (some (p, _)) = some p

-- `arm_install`
unfoldable pub arm_install : Option Text → Text → Elevation → VerifyScreen → Reply VerifyScreen
arm_install log_file dev elev st = begin (codes "verify-install") (record st {
  skip = false;
  session_log = log_file;
  rx = some (check_install dev (image_path st.image) elev);
  phase = running;
})
