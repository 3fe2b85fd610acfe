-- ===== src/Flash/Partition.antt =====
-- The workbench grow of the last partition to the end of its device (tui/src/flash.rs, `run_sgdisk`,
-- `last_partition_number`, `partition_info` and `grow_last_partition`), as effects on a host.
pub mod Report
pub mod Listing
pub mod Laws
use nixnas.Base.{
  ℕ, zero, suc, ◌^◌, Bool, true, false, ◌&&◌, ◌==◌, ltb, List, [], ◌∷◌, ◌++◌, Option, none, some,
  if◌then◌else◌, Result, ok, err, Io, bind, ◌>>=◌, ◌>>◌, pure,
}
use nixnas.Base.Utf8.{from_utf8_lossy}
use nixnas.Base.Text.{
  Text, codes, trim, trim_start, strip_prefix, starts_with, decimal, parse_below, is_space,
}
use nixnas.Stream.{IoError}
use nixnas.Sudo.Command.{Elevation, Output}
use nixnas.Flash.Grow.{History, Host, capture}

-- `PartInfo`
pub record PartInfo : Type 0 where
  pub first_sector : ℕ
  pub type_guid : Text
  pub unique_guid : Text
  pub name : Text

pub data PartError : Type 0 where
  no_sgdisk : IoError → PartError
  not_listed not_shown : Text → PartError
  failed : (args : List Text) → Text → PartError
  no_partitions no_type_guid no_unique_guid no_first_sector : PartError

abbrev onto_line : ℕ → List Text → List Text
onto_line c [] = (c ∷ []) ∷ []
onto_line c (l ∷ ls) = (c ∷ l) ∷ ls

-- `str::lines`: a line ends at a line feed, with the carriage return before it if there is one.
unfoldable pub lines : Text → List Text
unfolding starts_with
lines [] = []
lines (c ∷ s) =
    let rest = lines s in
    if c == 10
    then [] ∷ rest
    else if c == 13 && starts_with (10 ∷ []) s
    then rest
    else onto_line c rest

unfoldable pub word : Text → Text
word [] = []
word (c ∷ s) = let rest = word s in if is_space c then [] else c ∷ rest

abbrev started_word : Text → Option Text
started_word [] = none
started_word (c ∷ s) = some (word (c ∷ s))

-- `split_whitespace().next()`
abbrev pub first_word : Text → Option Text
first_word s = started_word (trim_start s)

abbrev pub number_of : ℕ → Option Text → Option ℕ
number_of limit none = none
number_of limit (some t) = parse_below limit t

abbrev pub keep_some : Option ℕ → List ℕ → List ℕ
keep_some none ns = ns
keep_some (some n) ns = n ∷ ns

-- The numbers that the rows of the partition table start with.
unfoldable pub row_numbers : List Text → List ℕ
row_numbers [] = []
row_numbers (l ∷ ls) = keep_some (number_of (2 ^ 32) (first_word l)) (row_numbers ls)

abbrev pub larger : ℕ → Option ℕ → Option ℕ
larger n none = some n
larger n (some m) = if ltb m n then some n else some m

-- `Iterator::max`
unfoldable pub max : List ℕ → Option ℕ
max [] = none
max (n ∷ ns) = larger n (max ns)

abbrev pub found_first : Option Text → Option Text → Option Text
found_first none rest = rest
found_first (some r) _ = some (trim r)

-- `after`: what follows the label on the first line that starts with it.
unfoldable pub after : Text → List Text → Option Text
after label [] = none
after label (l ∷ ls) = found_first (strip_prefix label (trim l)) (after label ls)

abbrev pub first_word_of : Option Text → Option Text
first_word_of none = none
first_word_of (some s) = first_word s

unfoldable pub drop_quotes : Text → Text
drop_quotes [] = []
drop_quotes (c ∷ s) = let rest = drop_quotes s in if c == 39 then rest else c ∷ s

abbrev pub keep_unquoted : ℕ → Text → Text
keep_unquoted c [] = if c == 39 then [] else c ∷ []
keep_unquoted c (d ∷ t) = c ∷ d ∷ t

unfoldable pub drop_end_quotes : Text → Text
drop_end_quotes [] = []
drop_end_quotes (c ∷ s) = keep_unquoted c (drop_end_quotes s)

abbrev pub name_of : Option Text → Text
name_of none = []
name_of (some s) = drop_end_quotes (drop_quotes s)

abbrev required : {A : Type 0} → PartError → Option A → Result PartError A
required e none = err e
required e (some a) = ok a

abbrev pub info_of : Option Text → Option Text → Option ℕ → Text → Result PartError PartInfo
info_of none _ _ _ = err no_type_guid
info_of (some _) none _ _ = err no_unique_guid
info_of (some _) (some _) none _ = err no_first_sector
info_of (some t) (some u) (some n) name =
    ok (record { first_sector = n; type_guid = t; unique_guid = u; name = name })

-- The fields of a report of `sgdisk --info`.
unfoldable pub read_info : Text → Result PartError PartInfo
unfolding lines after word drop_quotes drop_end_quotes
read_info text =
    let ls = lines text in
    info_of (first_word_of (after (codes "Partition GUID code:") ls))
      (after (codes "Partition unique GUID:") ls)
      (number_of (2 ^ 64) (first_word_of (after (codes "First sector:") ls)))
      (name_of (after (codes "Partition name:") ls))

-- The number of the last partition in a listing of `sgdisk -p`.
unfoldable pub last_number : Text → Option ℕ
unfolding max row_numbers lines
last_number text = max (row_numbers (lines text))

abbrev pub asked :
    (Output → PartError) → Result IoError Output × History → Result PartError Output × History
asked refusal (err e, h) = (err (no_sgdisk e), h)
asked refusal (ok out, h) = (if out.success then ok out else err (refusal out), h)

abbrev pub recreate : ℕ → PartInfo → List Text
recreate n info =
    let number = decimal n in
    (codes "--delete=" ++ number)
    ∷ (codes "--new=" ++ (number ++ (codes ":" ++ (decimal info.first_sector ++ codes ":0"))))
    ∷ (codes "--typecode=" ++ (number ++ (codes ":" ++ info.type_guid)))
    ∷ (codes "--partition-guid=" ++ (number ++ (codes ":" ++ info.unique_guid)))
    ∷ (codes "--change-name=" ++ (number ++ (codes ":" ++ info.name)))
    ∷ []

abbrev pub move_header : List Text
move_header = codes "--move-second-header" ∷ []

abbrev pub info_flag : ℕ → Text
info_flag n = codes "--info=" ++ decimal n

module _ (host : Host) (elev : Elevation) (dev : Text) where
  abbrev pub sgdisk : (Output → PartError) → List Text → Io History PartError Output
  sgdisk refusal args h = asked refusal (capture host elev (codes "sgdisk") args h)

  unfoldable pub run_sgdisk : List Text → Io History PartError (Unit {0})
  run_sgdisk args =
      sgdisk (λ out. failed args (trim (from_utf8_lossy out.stderr))) (args ++ (dev ∷ [])) >>= λ _.
      pure tt

  unfoldable pub last_partition_number : Io History PartError ℕ
  unfolding last_number
  last_partition_number =
      sgdisk (λ out. not_listed (from_utf8_lossy out.stderr)) (codes "-p" ∷ dev ∷ []) >>= λ out h.
      (required no_partitions (last_number (from_utf8_lossy out.stdout)), h)

  unfoldable pub partition_info : ℕ → Io History PartError PartInfo
  unfolding read_info
  partition_info n =
      sgdisk (λ out. not_shown (from_utf8_lossy out.stderr)) (info_flag n ∷ dev ∷ []) >>= λ out h.
      (read_info (from_utf8_lossy out.stdout), h)

  unfoldable pub grow_last_partition : Io History PartError ℕ
  unfolding run_sgdisk last_partition_number partition_info
  grow_last_partition = last_partition_number >>= λ n.
      partition_info n >>= λ info. run_sgdisk move_header >> run_sgdisk (recreate n info) >> pure n
