-- ===== src/Config.antt =====
-- The settings of the tool (tui/src/config.rs) and the TOML table in which they are kept. The parser and
-- the printer of TOML are third-party code; the model starts and ends at the table.
pub mod Laws
use nixnas.Base.{
  ℕ, ◌^◌, Bool, true, false, List, [], ◌∷◌, ◌++◌, Option, none, some, ltb, if◌then◌else◌, is_empty,
  is_some, Result, ok, err,
}
use nixnas.Base.Text.{Text, codes, text_eq}
use nixnas.Base.FilePath.{parent, join, is_absolute}

pub record Config : Type 0 where
  pub flake_dir : Text
  pub sb_keys_sops : Option Text
  pub build_memory_mib : Option ℕ  -- u32
  pub image_attr : Text
  pub host_attr : Option Text

abbrev pub default_flake_dir : Text
default_flake_dir = codes "."

abbrev pub default_image_attr : Text
default_image_attr = codes "imageScript"

-- `Config::default`
abbrev pub default : Config
default = record {
  flake_dir = default_flake_dir;
  sb_keys_sops = none;
  build_memory_mib = none;
  image_attr = default_image_attr;
  host_attr = none;
}

abbrev dir_or_dot : Option Text → Text
dir_or_dot none = codes "."
dir_or_dot (some p) = if is_empty p then codes "." else p

unfoldable pub config_dir : Text → Text
unfolding parent
config_dir path = dir_or_dot (parent path)

unfoldable pub resolved_flake_dir : Config → Text → Text
unfolding config_dir join
resolved_flake_dir c path =
    if is_absolute c.flake_dir then c.flake_dir else join (config_dir path) c.flake_dir

-- `backup_path` of tui/src/flash.rs.
unfoldable pub backup_path : Text → Text
unfolding config_dir join
backup_path path = join (config_dir path) (codes "nixnas-backup.img")

-- A TOML value: a text, an integer that is not negative, or anything else.
pub data Value : Type 0 where
  string : Text → Value
  integer : ℕ → Value
  other : Text → Value

abbrev pub Table : Type 0
Table = List (Text × Value)

unfoldable pub lookup : Text → Table → Option Value
lookup k [] = none
lookup k ((j, v) ∷ t) = let rest = lookup k t in if text_eq k j then some v else rest

unfoldable pub remove : Text → Table → Table
remove k [] = []
remove k ((j, v) ∷ t) = let rest = remove k t in if text_eq k j then rest else (j, v) ∷ rest

-- `Table::insert`: one entry for a key.
unfoldable pub insert : Text → Value → Table → Table
unfolding remove
insert k v t = (k, v) ∷ remove k t

abbrev pub k_flake_dir : Text
k_flake_dir = codes "flake_dir"

abbrev pub k_sb_keys_sops : Text
k_sb_keys_sops = codes "sb_keys_sops"

abbrev pub k_build_memory_mib : Text
k_build_memory_mib = codes "build_memory_mib"

abbrev pub k_image_attr : Text
k_image_attr = codes "image_attr"

abbrev pub k_host_attr : Text
k_host_attr = codes "host_attr"

-- What a field serialises to: `None` gives no key.
abbrev entry : {A : Type 0} → Text → (A → Value) → Option A → Table
entry k f none = []
entry k f (some v) = (k, f v) ∷ []

-- The table of the derived `Serialize`, in the order of the fields.
unfoldable pub to_table : Config → Table
to_table c =
    (k_flake_dir, string c.flake_dir) ∷ entry k_sb_keys_sops string c.sb_keys_sops
    ++ (entry k_build_memory_mib integer c.build_memory_mib
        ++ ((k_image_attr, string c.image_attr) ∷ entry k_host_attr string c.host_attr))

-- The loop of `save` that drops a key which the own table lacks.
abbrev pub drop_missing : Table → Text → Table → Table
drop_missing own k t = if is_some (lookup k own) then t else remove k t

-- The loop of `save` that inserts the own entries.
unfoldable pub insert_all : Table → Table → Table
insert_all [] t = t
insert_all ((k, v) ∷ own) t = insert_all own (insert k v t)

unfoldable pub merge : Config → Table → Table
merge c t =
    let own = to_table c in
    insert_all own (
      drop_missing own k_host_attr
        (drop_missing own k_build_memory_mib (drop_missing own k_sb_keys_sops t)))

-- The file as `load` and `save` find it.
pub data Stored : Type 0 where
  missing unreadable unparsable : Stored
  table : Table → Stored

pub data ConfigError : Type 0 where
  reading parsing writing : ConfigError

-- `save`: the table that is written, where the write succeeds. What the file holds after a write that fails
-- is an answer of the outside (Screen/Configure).
unfoldable pub save : Config → Stored → Bool → Result ConfigError Table
save c missing writes = if writes then ok (merge c []) else err writing
save c unreadable writes = err reading
save c unparsable writes = err parsing
save c (table t) writes = if writes then ok (merge c t) else err writing

-- The derived `Deserialize`: a missing key is its default, a value of the wrong type an error.
abbrev text_or : Text → Option Value → Option Text
text_or d none = some d
text_or d (some (string t)) = some t
text_or d (some (integer _)) = none
text_or d (some (other _)) = none

abbrev optional_text : Option Value → Option (Option Text)
optional_text none = some none
optional_text (some (string t)) = some (some t)
optional_text (some (integer _)) = none
optional_text (some (other _)) = none

abbrev optional_u32 : Option Value → Option (Option ℕ)
optional_u32 none = some none
optional_u32 (some (integer n)) = if ltb n (2 ^ 32) then some (some n) else none
optional_u32 (some (string _)) = none
optional_u32 (some (other _)) = none

abbrev assemble :
    Option Text
    → Option (Option Text)
    → Option (Option ℕ)
    → Option Text
    → Option (Option Text)
    → Result ConfigError Config
assemble (some f) (some s) (some m) (some i) (some h) = ok (record {
  flake_dir = f;
  sb_keys_sops = s;
  build_memory_mib = m;
  image_attr = i;
  host_attr = h;
})
assemble _ _ _ _ _ = err parsing

unfoldable pub from_table : Table → Result ConfigError Config
from_table t =
    assemble (text_or default_flake_dir (lookup k_flake_dir t))
      (optional_text (lookup k_sb_keys_sops t)) (optional_u32 (lookup k_build_memory_mib t))
      (text_or default_image_attr (lookup k_image_attr t)) (optional_text (lookup k_host_attr t))

unfoldable pub load : Stored → Result ConfigError Config
load missing = ok default
load unreadable = err reading
load unparsable = err parsing
load (table t) = from_table t
