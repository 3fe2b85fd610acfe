-- ===== src/Tests/Flashing.antt =====
-- A flash and a workbench grow on a host where every step succeeds (tui/src/flash.rs).
use nixnas.Base.{◌≡◌, refl, true, not, ◌||◌, [], some, ok}
use nixnas.Base.Text.{Text, codes}
use nixnas.Sudo.Command.{Secret, Elevation, Output}
use nixnas.Flash.Grow.{Host, partition_path, grow_f2fs_in_luks}
use nixnas.Flash.Grow.Node.{IsNode}
use nixnas.Flash.Grow.Laws.{IsGrown, grow_f2fs_in_luks-IsGrown}
use nixnas.Flash.Run.{Env, run_flash}
use nixnas.Flash.Run.Laws.{guarded, synced, header_checked, is_ok, run_flash-order}

abbrev secret : Secret
secret = record { bytes = codes "horse" }

abbrev env : Env
env = record { does = λ _ _. ok tt; same_prefix = λ _. ok true; grow_last_partition = λ _. ok 2 }

run_flash-order_example :
    (guarded env
        (λ before. not true || synced env before)
        (run_flash env true true (some secret) []).1
      ≡ true)
    × (is_ok (run_flash env true true (some secret) []).0
        ≡ header_checked env (run_flash env true true (some secret) []).1)
run_flash-order_example = run_flash-order env true true (some secret)

abbrev answer : Output
answer = record { success = true; stdout = codes "8000"; stderr = [] }

abbrev host : Host
host = record { run = λ _ _. ok answer; exists = λ _ _. true }

abbrev sda : Text
sda = codes "/dev/sda"

grow_f2fs_in_luks-IsGrown_example :
    (part : Text) × IsNode sda 2 part
    × IsGrown host
        (Elevation.sudo secret)
        part
        secret
        (grow_f2fs_in_luks host (Elevation.sudo secret) sda 2 secret []).1
unfolding grow_f2fs_in_luks nixnas.Flash.Grow.resize_and_close
grow_f2fs_in_luks-IsGrown_example =
    grow_f2fs_in_luks-IsGrown host (Elevation.sudo secret) sda 2 secret [] refl
