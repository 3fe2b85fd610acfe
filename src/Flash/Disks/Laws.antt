-- ===== src/Flash/Disks/Laws.antt =====
-- The older and the newer output of `lsblk` (tui/src/flash.rs).
use nixnas.Base.{ℕ, ◌^◌, ◌<◌, ◌≡◌, some, ap, ◌∙◌}
use nixnas.Base.Text.{decimal, parse_below}
use nixnas.Base.Decimal.{trim-decimal, parse_below-decimal}
use nixnas.Flash.Disks.{RawSize, flexible_u64}

-- A size that older versions of `lsblk` print in quotes is read as newer ones print it, for every
-- 64-bit size.
pub flexible_u64_quoted :
    (n : ℕ)
    → n < 2 ^ 64
    → flexible_u64 (some (RawSize.s (decimal n))) ≡ flexible_u64 (some (RawSize.i n))
unfolding flexible_u64
flexible_u64_quoted n h =
    ap (parse_below (2 ^ 64)) (trim-decimal n) ∙ parse_below-decimal (2 ^ 64) n h
