-- ===== src/Tests/Verifying.antt =====
-- A run of the VERIFY screen from its opening to a running worker on a device.
use nixnas.Base.{◌≡◌, refl, Option, none, some}
use nixnas.Base.Text.{codes}
use nixnas.Sudo.Command.{Elevation}
use nixnas.Screen.Key.{enter, left}
use nixnas.Screen.Verify.{Job, check_install, VerifyScreen, running, new_install, selected_disk}
use nixnas.Screen.Verify.Gates.{Checks}
use nixnas.Screen.Verify.Keys.{on_key}
use nixnas.Screen.Verify.Reach.{Reach, opened_install, key, Reach-Checks}
use nixnas.Tests.Screens.{host}

abbrev opened : VerifyScreen
opened = new_install (some (codes "nas.raw", 4_500_000_000)) host.disks

abbrev or_same : VerifyScreen → Option VerifyScreen → VerifyScreen
or_same st none = st
or_same st (some s) = s

abbrev started : VerifyScreen
started = or_same opened (left (on_key host enter opened))

abbrev job : Job
job = check_install (codes "/dev/sda") (some (codes "nas.raw")) Elevation.root

reached : Reach started
unfolding new_install on_key nixnas.Sudo.Command.preflight nixnas.Screen.Verify.arm_install
reached = key host enter (opened_install (some (codes "nas.raw", 4_500_000_000)) host.disks) refl

Reach-Checks_example :
    (started.phase ≡ running) × Checks started.mode (some job) started.image (selected_disk started)
unfolding new_install on_key nixnas.Sudo.Command.preflight nixnas.Screen.Verify.arm_install
Reach-Checks_example = Reach-Checks job reached refl
