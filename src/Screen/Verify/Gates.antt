-- ===== src/Screen/Verify/Gates.antt =====
-- What holds of the VERIFY screen between two keys (tui/src/ui/verify.rs).
use nixnas.Base.{ℕ, ◌≡◌, Option, none, some}
use nixnas.Base.Text.{Text}
use nixnas.Flash.Disks.{Disk, dev_path}
use nixnas.Screen.Verify.{
  VerifyMode, install, Phase, devices, running, sudo_pass, done, Job, check_image, check_install,
  VerifyScreen, selected_disk, image_path,
}

-- The path of the chosen device.
abbrev pub path_of : Option Disk → Option Text
path_of none = none
path_of (some d) = some (dev_path d)

-- The worker checks what the screen is for: the built image, or the chosen device against it.
abbrev pub Checks : VerifyMode → Option Job → Option (Text × ℕ) → Option Disk → Type 0
Checks VerifyMode.image (some (check_image p)) image disk = image_path image ≡ some p
Checks install (some (check_install dev reference elev)) image disk =
    (path_of disk ≡ some dev) × (reference ≡ image_path image)
Checks VerifyMode.image (some (check_install _ _ _)) image disk = ⊥
Checks install (some (check_image _)) image disk = ⊥
Checks VerifyMode.image none image disk = ⊥
Checks install none image disk = ⊥

abbrev pub SafeIn : Phase → VerifyScreen → Type 0
SafeIn devices st = (st.rx ≡ none) × (st.mode ≡ install)
SafeIn (sudo_pass _ _) st =
    (st.rx ≡ none)
    × (st.mode ≡ install)
    × ((dev : Text) × (st.pending_dev ≡ some dev) × (path_of (selected_disk st) ≡ some dev))
SafeIn running st = Checks st.mode st.rx st.image (selected_disk st)
SafeIn (done _) st = st.rx ≡ none

abbrev pub IsSafe : VerifyScreen → Type 0
IsSafe st = SafeIn st.phase st
