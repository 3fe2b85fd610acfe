-- ===== src/Screen/BuildFlash/Gates.antt =====
-- What holds of the BUILD & FLASH screen between two keys (tui/src/ui/buildflash.rs).
use nixnas.Base.{ℕ, ◌≡◌, ◌++◌, ◌≤◌, true, false, Option, none, some, is_some}
use nixnas.Base.Text.{Text, codes}
use nixnas.Build.Target.{min_image_bytes}
use nixnas.Screen.Flash.{Job}
use nixnas.Screen.BuildFlash.{
  Stage, unavailable, pick_device, pass_first, pass_confirm, building, flash_review,
  flash_backup_ask, flash_confirm, flash_sudo, flashing, done, BuildJob, BuildFlowScreen,
}

-- No worker runs.
abbrev pub Idle : BuildFlowScreen → Type 0
Idle st = (st.build_rx ≡ none) × (st.flash_rx ≡ none)

-- A device is picked, and it is large enough.
abbrev pub BigEnough : Option (Text × ℕ) → Type 0
BigEnough none = ⊥
BigEnough (some (_, bytes)) = min_image_bytes ≤ bytes

-- The image that was built fits the picked device.
abbrev pub Fits : Option (Text × ℕ) → Option (Text × ℕ) → Type 0
Fits (some (_, img)) (some (_, dev)) = img ≤ dev
Fits none (some _) = ⊥
Fits (some _) none = ⊥
Fits none none = ⊥

-- The build is for the size of the picked device.
abbrev pub BuildsFor : Option BuildJob → Option (Text × ℕ) → Type 0
BuildsFor (some job) (some (_, bytes)) = job.bytes ≡ bytes
BuildsFor (some _) none = ⊥
BuildsFor none _ = ⊥

-- The flash writes the built image to the picked device, without a grow.
abbrev pub FlashesTo : Option Job → Option (Text × ℕ) → Option (Text × ℕ) → Type 0
FlashesTo (some job) (some (image, _)) (some (name, bytes)) =
    (job.image ≡ image)
    × (job.dev ≡ codes "/dev/" ++ name)
    × (job.dev_size ≡ some bytes)
    × (job.grow ≡ false)
FlashesTo (some _) none _ = ⊥
FlashesTo (some _) (some _) none = ⊥
FlashesTo none _ _ = ⊥

-- What holds of the screen between two keys, by its stage.
abbrev pub SafeIn : Stage → BuildFlowScreen → Type 0
SafeIn unavailable st = Idle st
SafeIn pick_device st = Idle st
SafeIn (done _) st = Idle st
SafeIn (pass_first _ _) st = Idle st × BigEnough st.picked
SafeIn (pass_confirm _ _) st = Idle st × BigEnough st.picked
SafeIn building st = BuildsFor st.build_rx st.picked × (st.flash_rx ≡ none) × BigEnough st.picked
SafeIn flash_review st = Idle st × BigEnough st.picked × (is_some st.built ≡ true)
SafeIn flash_backup_ask st = Idle st × BigEnough st.picked × Fits st.built st.picked
SafeIn (flash_confirm _ _) st = Idle st × BigEnough st.picked × Fits st.built st.picked
SafeIn (flash_sudo _ _) st = Idle st × BigEnough st.picked × Fits st.built st.picked
SafeIn flashing st =
    (st.build_rx ≡ none)
    × BigEnough st.picked
    × Fits st.built st.picked
    × FlashesTo st.flash_rx st.built st.picked

abbrev pub IsSafe : BuildFlowScreen → Type 0
IsSafe st = SafeIn st.stage st
