-- ===== src/Verify/Layout.antt =====
-- The checks of a verification on what was read (tui/src/verify.rs, `run_verify`): the GPT, the boot
-- files of the ESP, the LUKS header. The crates gpt and fatfs are not modelled: the model starts at the
-- partitions and the directory entries that they hand on.
pub mod Laws
use nixnas.Base.{
  ℕ, ◌+◌, ◌-◌, ◌*◌, Bool, true, false, not, ◌&&◌, ◌||◌, ◌==◌, List, [], ◌∷◌, ◌++◌, Option, none,
  some, if◌then◌else◌, length, replicate, find, keep_if, is_empty, is_some, map, take, drop,
}
use nixnas.Base.Text.{Text, codes, text_eq, decimal, ends_with}
use nixnas.Flash.Disks.{eq_ignore_ascii_case, lower}
use nixnas.Stream.{Bytes}

-- A used partition: its byte range, and whether its type is that of an EFI System partition.
pub record GptPart : Type 0 where
  pub id : ℕ
  pub name : Text
  pub start : ℕ
  pub len : ℕ
  pub is_esp : Bool
  pub type_guid : Text

pub record FatEntry : Type 0 where
  pub is_dir : Bool
  pub file_name : Text
  pub len : ℕ

-- A mounted FAT volume: the entries of the directory at a path, if it can be opened.
abbrev pub Volume : Type 0
Volume = Text → Option (List FatEntry)

abbrev pub is_store : GptPart → Bool
is_store p = not p.is_esp

abbrev pub range_of : Option GptPart → Option (ℕ × ℕ)
range_of none = none
range_of (some p) = some (p.start, p.len)

-- The first partition of each kind.
abbrev pub esp_of : List GptPart → Option (ℕ × ℕ)
esp_of used = range_of (find (λ p. p.is_esp) used)

abbrev pub store_of : List GptPart → Option (ℕ × ℕ)
store_of used = range_of (find is_store used)

unfoldable pub wrong_count : ℕ → Text
wrong_count n = codes "expected 2 partitions (ESP + store), found " ++ decimal n

abbrev pub issue_if : Bool → Text → List Text
issue_if true t = t ∷ []
issue_if false t = []

-- The issues of the partition table.
unfoldable pub gpt_issues : List GptPart → List Text
gpt_issues used =
    issue_if (not (length used == 2)) (wrong_count (length used))
    ++ (issue_if (not (is_some (esp_of used))) (codes "no EFI System partition")
        ++ issue_if (not (is_some (store_of used))) (codes "no store (non-ESP) partition"))

-- The line that is shown of a partition: `{name:<12}` and `{:>10}` fill up with spaces.
unfoldable pub gpt_line : (ℕ → Text) → GptPart → Text
gpt_line human_size p =
    let name = codes "\"" ++ (p.name ++ codes "\"") in
    let size = human_size p.len in
    codes "p"
    ++ (decimal p.id
        ++ (codes "  "
            ++ (name
                ++ (replicate (12 - length name) b' '
                    ++ (codes " "
                        ++ (replicate (10 - length size) b' '
                            ++ (size
                                ++ (codes "  type "
                                    ++ (if p.is_esp
                                        then codes "EFI System"
                                        else p.type_guid)))))))))

abbrev pub is_file_named : Text → FatEntry → Bool
is_file_named name e = not e.is_dir && eq_ignore_ascii_case e.file_name name

abbrev pub len_of : Option FatEntry → Option ℕ
len_of none = none
len_of (some e) = some e.len

abbrev len_in : Text → Option (List FatEntry) → Option ℕ
len_in name none = none
len_in name (some entries) = len_of (find (is_file_named name) entries)

-- `fat_file_len`
unfoldable pub fat_file_len : Volume → Text → Text → Option ℕ
unfolding eq_ignore_ascii_case
fat_file_len volume dir name = len_in name (volume dir)

-- Either trace of systemd-boot is proof.
unfoldable pub has_systemd_boot : Volume → Bool
unfolding fat_file_len
has_systemd_boot volume =
    is_some (fat_file_len volume (codes "EFI/BOOT") (codes "BOOTX64.EFI"))
    || is_some (volume (codes "EFI/systemd"))

-- `to_ascii_lowercase().ends_with(".efi")`
abbrev pub is_uki : FatEntry → Bool
is_uki e = not e.is_dir && ends_with (codes ".efi") (map lower e.file_name)

-- The kernels under a directory that could be opened.
abbrev pub ukis_of : List FatEntry → List FatEntry
ukis_of entries = keep_if is_uki entries

-- The issues of the UKI inventory.
abbrev pub uki_issues : Option (List FatEntry) → List Text
uki_issues none = codes "EFI/Linux does not exist on the ESP" ∷ []
uki_issues (some entries) =
    issue_if (is_empty (ukis_of entries)) (codes "no UKIs (*.efi) under EFI/Linux")

abbrev pub boot_issues : Volume → List Text
boot_issues volume = issue_if (not (has_systemd_boot volume)) (codes "no systemd-boot on the ESP")

-- "LUKS\xba\xbe"
abbrev pub luks_magic : Bytes
luks_magic = 76 ∷ 85 ∷ 75 ∷ 83 ∷ 186 ∷ 190 ∷ []

-- `u16::from_be_bytes` of two bytes.
abbrev pub version_of : Bytes → ℕ
version_of (hi ∷ lo ∷ []) = hi * 256 + lo
version_of _ = 0

unfoldable pub is_luks2 : Bytes → Bool
unfolding text_eq
is_luks2 hdr = text_eq (take 6 hdr) luks_magic && version_of (drop 6 hdr) == 2
