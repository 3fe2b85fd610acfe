-- ===== src/Tests/Turnkey.antt =====
-- A run of the BUILD & FLASH screen from its opening to a running build, and on to a running flash.
use nixnas.Base.{
  length, arith, ℕ, ◌≡◌, refl, [], ◌∷◌, Option, none, some, true, false, List, Result, ok, err, ◌≤◌,
}
use nixnas.Base.Text.{Text, codes}
use nixnas.Build.Steps.{BuildEvent}
use nixnas.Build.Target.{min_image_bytes}
use nixnas.Config.{Config, default}
use nixnas.Sudo.Command.{Elevation}
use nixnas.Screen.Key.{KeyCode, enter, char, left}
use nixnas.Screen.Flash.{Job}
use nixnas.Screen.BuildFlash.{BuildFlowScreen, BuildJob, new}
use nixnas.Screen.BuildFlash.Keys.{on_key}
use nixnas.Screen.BuildFlash.Events.{drain_events, drain_build}
use nixnas.Screen.BuildFlash.Events.Bounds.{drain_build-bounded}
use nixnas.Screen.BuildFlash.Reach.{
  Reach, opened, key, drained, IsExact, Reach-IsExact, Reach-builds_exactly,
}
use nixnas.Tests.Screens.{path, host}

abbrev cfg : Config
cfg = record default { host_attr = some (codes "nas") }

abbrev or_same : BuildFlowScreen → Option BuildFlowScreen → BuildFlowScreen
or_same st none = st
or_same st (some s) = s

abbrev press : KeyCode → BuildFlowScreen → BuildFlowScreen
press k st = or_same st (left (on_key path cfg host k st))

abbrev press_all : List KeyCode → BuildFlowScreen → BuildFlowScreen
press_all [] st = st
press_all (k ∷ ks) st = press_all ks (press k st)

-- Pick the stick, type the passphrase twice.
abbrev building_screen : BuildFlowScreen
building_screen =
    press_all (enter ∷ char b'p' ∷ enter ∷ char b'p' ∷ enter ∷ []) (new cfg host.disks)

abbrev build_job : BuildJob
build_job = record {
  config_path = path;
  config = cfg;
  passphrase = b'p' ∷ [];
  bytes = 8_000_000_000;
}

building_reached : Reach path cfg building_screen
unfolding new on_key drain_events nixnas.Base.Text.text_eq nixnas.Base.Text.trim
    nixnas.Sudo.Command.preflight nixnas.Screen.BuildFlash.arm_flash
    nixnas.Screen.BuildFlash.refresh_disks nixnas.Build.Target.check_target_bytes
    nixnas.Screen.BuildFlash.Events.trim_log nixnas.Screen.BuildFlash.Events.drain_build
    nixnas.Screen.BuildFlash.Events.drain_flash
building_reached =
    key host enter
      (key host (char b'p')
        (key host enter (key host (char b'p') (key host enter (opened host.disks) refl) refl) refl)
        refl)
      refl

Reach-builds_exactly_example :
    (name : Text) × (building_screen.picked ≡ some (name, 8_000_000_000))
    × (min_image_bytes ≤ 8_000_000_000)
unfolding new on_key drain_events nixnas.Base.Text.text_eq nixnas.Base.Text.trim
    nixnas.Sudo.Command.preflight nixnas.Screen.BuildFlash.arm_flash
    nixnas.Screen.BuildFlash.refresh_disks nixnas.Build.Target.check_target_bytes
    nixnas.Screen.BuildFlash.Events.trim_log nixnas.Screen.BuildFlash.Events.drain_build
    nixnas.Screen.BuildFlash.Events.drain_flash
Reach-builds_exactly_example = Reach-builds_exactly build_job building_reached refl

abbrev built_screen : BuildFlowScreen
built_screen =
    (drain_events host.file_size host.human_size (BuildEvent.done (ok (codes "nas.raw")) ∷ []) []
      building_screen).0

-- Review, no backup, the name, Enter.
abbrev flashing_screen : BuildFlowScreen
flashing_screen =
    press_all (enter ∷ char b'n' ∷ char b's' ∷ char b'd' ∷ char b'a' ∷ enter ∷ []) built_screen

abbrev flash_job : Job
flash_job = record {
  image = codes "nas.raw";
  dev = codes "/dev/sda";
  dev_size = some 8_000_000_000;
  backup_to = none;
  grow = false;
  store_pass = none;
  elev = Elevation.root;
}

flashing_reached : Reach path cfg flashing_screen
unfolding new on_key drain_events nixnas.Base.Text.text_eq nixnas.Base.Text.trim
    nixnas.Sudo.Command.preflight nixnas.Screen.BuildFlash.arm_flash
    nixnas.Screen.BuildFlash.refresh_disks nixnas.Build.Target.check_target_bytes
    nixnas.Screen.BuildFlash.Events.trim_log nixnas.Screen.BuildFlash.Events.drain_build
    nixnas.Screen.BuildFlash.Events.drain_flash
flashing_reached =
    key host enter
      (key host (char b'a')
        (key host (char b'd')
          (key host (char b's')
            (key host (char b'n')
              (key host enter
                (drained host.file_size host.human_size
                  (BuildEvent.done (ok (codes "nas.raw")) ∷ []) [] building_reached)
                refl)
              refl)
            refl)
          refl)
        refl)
      refl

Reach-IsExact_example : IsExact flashing_screen flash_job
unfolding new on_key drain_events nixnas.Base.Text.text_eq nixnas.Base.Text.trim
    nixnas.Sudo.Command.preflight nixnas.Screen.BuildFlash.arm_flash
    nixnas.Screen.BuildFlash.refresh_disks nixnas.Build.Target.check_target_bytes
    nixnas.Screen.BuildFlash.Events.trim_log nixnas.Screen.BuildFlash.Events.drain_build
    nixnas.Screen.BuildFlash.Events.drain_flash
Reach-IsExact_example = Reach-IsExact flash_job flashing_reached refl

drain_build-bounded_example :
    length
      ((drain_build host.file_size host.human_size
          (BuildEvent.log (codes "copying") ∷ [])
          building_screen).0
        ).log
    ≤ 10_000
unfolding new on_key nixnas.Base.Text.text_eq nixnas.Screen.BuildFlash.refresh_disks
    nixnas.Build.Target.check_target_bytes
drain_build-bounded_example =
    drain_build-bounded host.file_size host.human_size (BuildEvent.log (codes "copying") ∷ [])
      building_screen (omega arith)
