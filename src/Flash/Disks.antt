-- ===== src/Flash/Disks.antt =====
-- The listing of whole disks (tui/src/flash.rs): what `lsblk -J` says, in its older and newer forms,
-- and the disks that the screens show. The JSON parser itself is not modelled: the model starts at the
-- values that it hands on.
pub mod Laws
use nixnas.Base.{
  ℕ, ◌+◌, ◌^◌, Bool, true, false, not, ◌&&◌, ◌||◌, List, [], ◌∷◌, ◌++◌, Option, none, some, leb,
  ◌==◌, if◌then◌else◌, is_empty,
}
use nixnas.Base.Text.{Text, codes, text_eq, trim, parse_below}
use nixnas.Stream.{ℤ, pos, negsuc}

-- The JSON values that stand for a boolean.
pub data RawBool : Type 0 where
  b : Bool → RawBool
  i : ℤ → RawBool
  s : Text → RawBool

-- The JSON values that stand for a size.
pub data RawSize : Type 0 where
  i : ℕ → RawSize
  s : Text → RawSize

abbrev pub lower : ℕ → ℕ
lower c = if leb 65 c && leb c 90 then c + 32 else c

unfoldable pub eq_ignore_ascii_case : Text → Text → Bool
eq_ignore_ascii_case [] [] = true
eq_ignore_ascii_case [] (_ ∷ _) = false
eq_ignore_ascii_case (_ ∷ _) [] = false
eq_ignore_ascii_case (c ∷ x) (d ∷ y) = lower c == lower d && eq_ignore_ascii_case x y

abbrev is_zero : ℤ → Bool
is_zero (pos n) = n == 0
is_zero (negsuc n) = false

unfoldable pub flexible_bool : Option RawBool → Option Bool
unfolding text_eq eq_ignore_ascii_case
flexible_bool none = none
flexible_bool (some (RawBool.b v)) = some v
flexible_bool (some (RawBool.i n)) = some (not (is_zero n))
flexible_bool (some (RawBool.s t)) =
    some (text_eq t (codes "1") || eq_ignore_ascii_case t (codes "true"))

unfoldable pub flexible_u64 : Option RawSize → Option ℕ
unfolding trim parse_below
flexible_u64 none = none
flexible_u64 (some (RawSize.i n)) = some n
flexible_u64 (some (RawSize.s t)) = parse_below (2 ^ 64) (trim t)

-- `LsblkDevice`, with its children.
mutual
  pub data LsblkDevice : Type 0 where
    device :
        (name : Text) (size : Option RawSize) (dev_type tran : Option Text) (rm : Option RawBool)
        (model label : Option Text)
        → Devices
        → LsblkDevice

  pub data Devices : Type 0 where
    end : Devices
    more : LsblkDevice → Devices → Devices

pub record Part : Type 0 where
  pub name : Text
  pub size : Option ℕ
  pub label : Option Text

pub record Disk : Type 0 where
  pub name : Text
  pub size : Option ℕ
  pub tran : Option Text
  pub removable : Bool
  pub model : Option Text
  pub parts : List Part

abbrev pub dev_path : Disk → Text
dev_path d = codes "/dev/" ++ d.name

abbrev is_text : Text → Option Text → Bool
is_text t none = false
is_text t (some u) = text_eq u t

-- `looks_like_usb_stick`
unfoldable pub looks_like_usb_stick : Disk → Bool
unfolding text_eq
looks_like_usb_stick d = d.removable || is_text (codes "usb") d.tran

abbrev or_false : Option Bool → Bool
or_false none = false
or_false (some v) = v

-- A model name of blanks counts as none.
abbrev not_blank : Option Text → Option Text
not_blank none = none
not_blank (some m) = if is_empty (trim m) then none else some m

unfoldable pub parts_of : Devices → List Part
unfolding flexible_u64 text_eq
parts_of end = []
parts_of (more (device name size dev_type tran rm model label children) ds) =
    let rest = parts_of ds in
    if is_text (codes "part") dev_type
    then record { name = name; size = flexible_u64 size; label = label } ∷ rest
    else rest

-- `list_disks`, from the parsed output.
unfoldable pub list_disks : Devices → List Disk
unfolding flexible_u64 flexible_bool parts_of text_eq
list_disks end = []
list_disks (more (device name size dev_type tran rm model label children) ds) =
    let rest = list_disks ds in
    if is_text (codes "disk") dev_type
    then record {
      name = name;
      size = flexible_u64 size;
      tran = tran;
      removable = or_false (flexible_bool rm);
      model = not_blank model;
      parts = parts_of children;
    }
      ∷ rest
    else rest
