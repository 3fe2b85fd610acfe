-- ===== src/Screen/BuildFlash.antt =====
-- The BUILD & FLASH screen (tui/src/ui/buildflash.rs): its state, and the start of its two workers.
pub mod Keys
pub mod Events
pub mod Gates
pub mod Reach
use nixnas.Base.{
  ℕ, ◌-◌, min, Bool, true, false, ◌==◌, ltb, List, [], ◌++◌, Option, none, some, Result, ok, err,
  if◌then◌else◌, length, get_elem?, is_some, replicate,
}
use nixnas.Base.Text.{Text, codes}
use nixnas.Config.{Config, backup_path}
use nixnas.Build.Steps.{StepState, pending}
use nixnas.Flash.Disks.{Disk}
use nixnas.Sudo.Command.{Elevation}
use nixnas.Screen.Key.{Reply, stay, begin}
use nixnas.Screen.Flash.{Job}

pub data Stage : Type 0 where
  unavailable pick_device : Stage
  pass_first : Text → Option Text → Stage
  pass_confirm : Text → Text → Stage
  building flash_review flash_backup_ask : Stage
  flash_confirm : Text → Option Text → Stage
  flash_sudo : Text → Option Text → Stage
  flashing : Stage
  done : Bool → Stage

-- The arguments of `spawn_build`; the image is sized to exactly `bytes`.
pub record BuildJob : Type 0 where
  pub config_path : Text
  pub config : Config
  pub passphrase : Text
  pub bytes : ℕ

pub record BuildFlowScreen : Type 0 where
  pub disks : List Disk
  pub selected : ℕ
  pub list_error : Option Text
  pub pick_error : Option Text
  pub picked : Option (Text × ℕ)
  pub backup : Bool
  pub stage : Stage
  pub steps : List StepState
  pub log : List Text
  pub scroll : ℕ
  pub follow : Bool
  pub build_rx : Option BuildJob
  pub built : Option (Text × ℕ)
  pub flash_rx : Option Job
  pub gauge_title : Text
  pub progress : ℕ × ℕ
  pub message : Option Text
  pub session_log : Option Text

-- `refresh_disks`
unfoldable pub refresh_disks : Result Text (List Disk) → BuildFlowScreen → BuildFlowScreen
refresh_disks (ok disks) st = record st {
  disks = disks;
  list_error = none;
  selected = min st.selected (length disks - 1);
}
refresh_disks (err e) st = record st { disks = []; list_error = some e; selected = 0 }

abbrev fresh : Stage → Option Text → BuildFlowScreen
fresh stage message = record {
  disks = [];
  selected = 0;
  list_error = none;
  pick_error = none;
  picked = none;
  backup = true;
  stage = stage;
  steps = replicate 6 pending;
  log = [];
  scroll = 0;
  follow = true;
  build_rx = none;
  built = none;
  flash_rx = none;
  gauge_title = [];
  progress = (0, 0);
  message = message;
  session_log = none;
}

-- `BuildFlowScreen::new`
unfoldable pub new : Config → Result Text (List Disk) → BuildFlowScreen
new c disks =
    if is_some c.host_attr
    then refresh_disks disks (fresh pick_device none)
    else fresh unavailable (
        some (
          codes
            "Build & flash needs `host_attr` set (Configure) — it sizes the image to the device by re-evaluating that host. Set it, or use the separate Build/Flash entries."))

abbrev pub is_running : BuildFlowScreen → Bool
is_running st = elim st.stage [ building ↦ true | flashing ↦ true | _ ↦ false ]

abbrev pub selected_disk : BuildFlowScreen → Option Disk
selected_disk st = get_elem? st.disks st.selected

-- `exact_fit_note`, without the wording of its messages.
pub data FitNote : Type 0 where
  exact smaller larger : FitNote

abbrev pub fit_note : Option (Text × ℕ) → Option (Text × ℕ) → Option FitNote
fit_note none _ = none
fit_note (some _) none = none
fit_note (some (_, img)) (some (_, dev)) =
    some (if img == dev then exact else if ltb img dev then smaller else larger)

-- `exact_fit_note`
abbrev pub exact_fit_note : BuildFlowScreen → Option FitNote
exact_fit_note st = fit_note st.built st.picked

-- `image_fits`
abbrev pub image_fits : BuildFlowScreen → Bool
image_fits st = elim (exact_fit_note st) [ some larger ↦ false | _ ↦ true ]

-- `arm_flash`
unfoldable pub arm_flash : Text → Option Text → Elevation → BuildFlowScreen → Reply BuildFlowScreen
arm_flash config_path log_file elev st = elim st.picked [
  | none ↦ stay st
  | some (name, bytes) ↦ elim st.built [
    | none ↦ stay st
    | some (image, _) ↦ begin (codes "flash") (record st {
      session_log = log_file;
      progress = (0, 0);
      stage = flashing;
      flash_rx = some (record {
        image = image;
        dev = codes "/dev/" ++ name;
        dev_size = some bytes;
        backup_to = if st.backup then some (backup_path config_path) else none;
        grow = false;
        store_pass = none;
        elev = elev;
      });
    })
  ]
]
