-- ===== src/Tests/Partition.antt =====
-- A grow of the last of two partitions, with sgdisk's reports as it prints them (tui/src/flash.rs).
use nixnas.Base.{◌≡◌, refl, true, List, [], ◌∷◌, ◌++◌, some, ok, if◌then◌else◌}
use nixnas.Base.Text.{
  Text, codes, starts_with, trim_start, trim, strip_prefix, parse_below, decimal,
}
use nixnas.Base.Utf8.{from_utf8_lossy}
use nixnas.Sudo.Command.{Elevation, Output, captured}
use nixnas.Flash.Grow.{ran, History, Host}
use nixnas.Flash.Partition.{PartInfo, last_number, read_info, recreate, grow_last_partition}
use nixnas.Flash.Partition.Laws.{Careful, Grown, grow_last_partition-Grown}

abbrev sda : Text
sda = codes "/dev/sda"

abbrev line : Text → Text → Text
line s rest = s ++ (10 ∷ rest)

abbrev listing : Text
listing = line (codes "Disk /dev/sda: 4096 sectors") (
    line (codes "Number  Start")
      (line (codes "   1  2048  ESP") (line (codes "   2  9000  nixos") [])))

abbrev report : Text
report = line (codes "Partition GUID code: CA7D (Linux LUKS)") (
    line (codes "Partition unique GUID: B0B1")
      (line (codes "First sector: 9000 (at 4.4 MiB)") (line (codes "Partition name: 'nixos'") [])))

abbrev info : PartInfo
info = record {
  first_sector = 9000;
  type_guid = codes "CA7D";
  unique_guid = codes "B0B1";
  name = codes "nixos";
}

listing_ends : last_number listing ≡ some 2
unfolding last_number nixnas.Flash.Partition.row_numbers trim_start parse_below
    nixnas.Flash.Partition.word
listing_ends = refl

report_is_read : read_info report ≡ ok info
unfolding read_info strip_prefix trim parse_below
report_is_read = refl

abbrev says : Text → Output
says t = record { success = true; stdout = t; stderr = [] }

abbrev answer : List Text → Output
answer [] = says []
answer (arg ∷ _) =
    if starts_with (codes "-p") arg
    then says listing
    else if starts_with (codes "--info=2") arg
    then says report
    else says []

abbrev latest : History → List Text
latest [] = []
latest (ran _ args _ ∷ _) = args
latest (_ ∷ _) = []

abbrev host : Host
host = record { run = λ h c. ok (answer c.args); exists = λ _ _. true }

grows : (grow_last_partition host Elevation.root sda []).0 ≡ ok 2
unfolding grow_last_partition starts_with captured trim_start parse_below decimal strip_prefix trim
    from_utf8_lossy
grows = refl

rewrites : latest (grow_last_partition host Elevation.root sda []).1 ≡ recreate 2 info ++ (sda ∷ [])
unfolding grow_last_partition starts_with captured trim_start parse_below decimal strip_prefix trim
    from_utf8_lossy
rewrites = refl

grow_last_partition-Grown_example :
    Grown host Elevation.root sda (grow_last_partition host Elevation.root sda [])
grow_last_partition-Grown_example =
    grow_last_partition-Grown host Elevation.root sda [] Careful.nothing
