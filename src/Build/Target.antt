-- ===== src/Build/Target.antt =====
-- The size gate of a build for a device (tui/src/build.rs).
use nixnas.Base.{ℕ, ◌*◌, ◌++◌, Result, ok, err, if◌then◌else◌, ltb}
use nixnas.Base.Text.{Text, codes}

-- `MIN_IMAGE_BYTES`
abbrev pub min_image_bytes : ℕ
min_image_bytes = 4 * 1024 * 1024 * 1024

-- `check_target_bytes`, with the rounding of sizes for display as an argument.
unfoldable pub check_target_bytes : (ℕ → Text) → ℕ → Result Text Unit
check_target_bytes human_size dev_bytes =
    if ltb dev_bytes min_image_bytes
    then err (
        codes "stick too small: needs ≥ "
        ++ (human_size min_image_bytes ++ (codes ", this device is only " ++ human_size dev_bytes)))
    else ok tt
