-- ===== src/Screen/Configure.antt =====
-- The CONFIGURE screen (tui/src/ui/configure.rs): the form, its validation, and what its keys do to the
-- application.
pub mod Browse
pub mod Laws
use nixnas.Base.{
  ℕ, zero, suc, ◌+◌, ◌-◌, ◌%◌, ◌^◌, Bool, true, false, ◌||◌, ◌==◌, List, [], ◌∷◌, ◌++◌, Option,
  none, some, Result, ok, err, if◌then◌else◌, get_elem?, set, is_empty, pop,
}
use nixnas.Base.FilePath.{parent}
use nixnas.Base.Text.{Text, codes, trim, decimal, parse_below}
use nixnas.Config.{
  Config, Table, Stored, ConfigError, default_flake_dir, default_image_attr, config_dir, save,
}
use nixnas.Screen.Configure.Browse as Browsers
use nixnas.Screen.Configure.Browse.{
  Places, Browser, closed, browsing, picked, Browsing, browser_key, browser_start,
}
use nixnas.Screen.Key.{KeyCode, esc, enter, up, down, backspace, delete, char}

pub data FieldKind : Type 0 where
  dir_path file_path text number : FieldKind

pub record FieldMeta : Type 0 where
  pub kind : FieldKind
  pub optional : Bool

-- `FIELDS`, without what is only shown.
abbrev pub fields : List FieldMeta
fields =
    record { kind = dir_path; optional = false }
    ∷ record { kind = file_path; optional = true }
    ∷ record { kind = text; optional = false }
    ∷ record { kind = text; optional = true }
    ∷ record { kind = number; optional = true }
    ∷ []

pub record ConfigureState : Type 0 where
  pub values : List Text
  pub selected : ℕ
  pub edit : Option Text
  pub browser : Option Browser
  pub notice : Option (Text × Bool)
  pub dirty : Bool
  pub yazi : Bool

abbrev pub text_of : Option Text → Text
text_of none = []
text_of (some t) = t

abbrev pub digits_of : Option ℕ → Text
digits_of none = []
digits_of (some n) = decimal n

-- `ConfigureState::from_config`
unfoldable pub from_config : Config → Bool → ConfigureState
unfolding decimal
from_config cfg yazi = record {
  values =
      cfg.flake_dir
      ∷ text_of cfg.sb_keys_sops
      ∷ cfg.image_attr
      ∷ text_of cfg.host_attr
      ∷ digits_of cfg.build_memory_mib
      ∷ [];
  selected = 0;
  edit = none;
  browser = none;
  notice = none;
  dirty = false;
  yazi = yazi;
}

abbrev pub value : ConfigureState → ℕ → Text
value st i = text_of (get_elem? st.values i)

abbrev pub or_default : Text → Text → Text
or_default d t = if is_empty t then d else t

abbrev pub if_given : Text → Option Text
if_given t = if is_empty t then none else some t

abbrev pub parsed : Text → Option ℕ → Result Text (Option ℕ)
parsed mem none =
    err (codes "build_memory_mib: `" ++ (mem ++ codes "` is not a whole number of MiB"))
parsed mem (some n) = ok (some n)

-- The memory size: a 32-bit number, or nothing.
abbrev pub memory_of : Text → Result Text (Option ℕ)
memory_of mem = if is_empty mem then ok none else parsed mem (parse_below (2 ^ 32) mem)

abbrev pub with_memory : ConfigureState → Result Text (Option ℕ) → Result Text Config
with_memory st (err e) = err e
with_memory st (ok memory) = ok (record {
  flake_dir = or_default default_flake_dir (trim (value st 0));
  sb_keys_sops = if_given (trim (value st 1));
  image_attr = or_default default_image_attr (trim (value st 2));
  host_attr = if_given (trim (value st 3));
  build_memory_mib = memory;
})

-- `to_config`
unfoldable pub to_config : ConfigureState → Result Text Config
unfolding trim parse_below
to_config st = with_memory st (memory_of (trim (value st 4)))

-- What the outside says while a key is handled: the file system, the settings' file and whether it can be
-- written, and how an error is shown.
pub record Answers : Type 0 where
  pub places : Places
  pub stored : Stored
  pub writes : Bool
  pub torn : Stored  -- the file after a write that fails, which may have truncated it
  pub shown : ConfigError → Text

-- What a key leaves: the screen, if it is still there, the settings, the table that was written, what a
-- failed write made of the file, and the pick that the main loop is asked for.
pub record Outcome : Type 0 where
  pub screen : Option ConfigureState
  pub cfg : Config
  pub written : Option Table
  pub torn : Option Stored
  pub request : Option (ℕ × Text)

abbrev pub leaves : Config → ConfigureState → Outcome
leaves cfg st = record { screen = some st; cfg = cfg; written = none; torn = none; request = none }

abbrev pub torn_by : Answers → ConfigError → Option Stored
torn_by o ConfigError.writing = some o.torn
torn_by o _ = none

abbrev pub saved :
    Text → Config → Config → Answers → ConfigureState → Result ConfigError Table → Outcome
saved path old new o st (ok table) = record {
  screen = some (record st { notice = some (codes "Saved " ++ path, false); dirty = false });
  cfg = new;
  written = some table;
  torn = none;
  request = none;
}
saved path old new o st (err e) =
    record (leaves old (record st { notice = some (o.shown e, true) })) { torn = torn_by o e }

abbrev pub validated : Text → Config → Answers → ConfigureState → Result Text Config → Outcome
validated path old o st (ok new) = saved path old new o st (save new o.stored o.writes)
validated path old o st (err message) = leaves old (record st { notice = some (message, true) })

-- Saving the form
unfoldable pub save_form : Text → Config → Answers → ConfigureState → Outcome
unfolding to_config save
save_form path cfg o st = validated path cfg o st (to_config st)

abbrev pub kind_of : Option FieldMeta → Option FieldKind
kind_of none = none
kind_of (some meta) = some meta.kind

abbrev is_dir_kind : Option FieldKind → Bool
is_dir_kind (some dir_path) = true
is_dir_kind _ = false

abbrev pub is_path_kind : Option FieldKind → Bool
is_path_kind (some dir_path) = true
is_path_kind (some file_path) = true
is_path_kind _ = false

abbrev pub kind : ConfigureState → Option FieldKind
kind st = kind_of (get_elem? fields st.selected)

abbrev start_of : Text → Answers → ConfigureState → Text
start_of path o st = browser_start o.places (config_dir path) (value st st.selected)

abbrev open_browser : Text → Answers → ConfigureState → ConfigureState
open_browser path o st = record st {
  browser = some (Browsers.new o.places st.selected (is_dir_kind (kind st)) (start_of path o st));
}

abbrev begin_edit : ConfigureState → ConfigureState
begin_edit st = record st { edit = some (value st st.selected) }

abbrev enter_key : Text → Config → Answers → ConfigureState → Outcome
enter_key path cfg o st =
    if is_path_kind (kind st)
    then (if st.yazi
        then record (leaves cfg st) { request = some (st.selected, start_of path o st) }
        else leaves cfg (open_browser path o st))
    else leaves cfg (begin_edit st)

abbrev is_optional : Option FieldMeta → Bool
is_optional none = false
is_optional (some meta) = meta.optional

abbrev clear_field : ConfigureState → ConfigureState
clear_field st =
    if is_optional (get_elem? fields st.selected)
    then record st { values = set st.values st.selected []; dirty = true }
    else st

abbrev go_up : ConfigureState → ConfigureState
go_up st = record st { selected = if st.selected == 0 then 4 else st.selected - 1 }

abbrev go_down : ConfigureState → ConfigureState
go_down st = record st { selected = (st.selected + 1) % 5 }

-- The keys of the form
unfoldable pub form_key : Text → Config → Answers → KeyCode → ConfigureState → Outcome
unfolding save_form browser_start Browsers.new config_dir
form_key path cfg o esc st = record {
  screen = none;
  cfg = cfg;
  written = none;
  torn = none;
  request = none;
}
form_key path cfg o up st = leaves cfg (go_up st)
form_key path cfg o down st = leaves cfg (go_down st)
form_key path cfg o enter st = enter_key path cfg o st
form_key path cfg o delete st = leaves cfg (clear_field st)
form_key path cfg o (char c) st =
    if c == b'k'
    then leaves cfg (go_up st)
    else if c == b'j'
    then leaves cfg (go_down st)
    else if c == b'b'
    then leaves cfg (if is_path_kind (kind st) then open_browser path o st else st)
    else if c == b'e'
    then leaves cfg (begin_edit st)
    else if c == b'd'
    then leaves cfg (clear_field st)
    else if c == b's'
    then save_form path cfg o st
    else leaves cfg st
form_key path cfg o _ st = leaves cfg st

-- The keys while a value is edited
unfoldable pub edit_key : KeyCode → Text → ConfigureState → ConfigureState
unfolding trim
edit_key esc buf st = record st { edit = none }
edit_key enter buf st = record st {
  values = set st.values st.selected (trim buf);
  dirty = true;
  edit = none;
}
edit_key backspace buf st = record st { edit = some (pop buf) }
edit_key (char c) buf st = record st { edit = some (buf ++ (c ∷ [])) }
edit_key _ buf st = st

abbrev browsed : (o : Answers) → Browsing o.places → ConfigureState → ConfigureState
browsed o closed st = record st { browser = none }
browsed o (browsing b) st = record st { browser = some b }
browsed o (picked field path) st = record st {
  values = set st.values field path;
  dirty = true;
  browser = none;
}

abbrev pub in_form : Text → Config → Answers → KeyCode → Option Text → ConfigureState → Outcome
in_form path cfg o k (some buf) st = leaves cfg (edit_key k buf st)
in_form path cfg o k none st = form_key path cfg o k st

abbrev pub in_screen : Text → Config → Answers → KeyCode → Option Browser → ConfigureState → Outcome
in_screen path cfg o k (some b) st = leaves cfg (browsed o (browser_key o.places k b) st)
in_screen path cfg o k none st = in_form path cfg o k st.edit st

-- `on_key`: the browser first, then the edit, then the form.
unfoldable pub on_key : Text → Config → Answers → KeyCode → ConfigureState → Outcome
unfolding browser_key edit_key form_key
on_key path cfg o k st = in_screen path cfg o k st.browser st

abbrev parent_or : Option Text → Text → Text
parent_or none p = p
parent_or (some above) p = above

-- `apply_picked`: a directory field takes the parent of a file.
unfoldable pub apply_picked : Places → ℕ → Text → ConfigureState → ConfigureState
unfolding parent
apply_picked places field path st = elim (kind_of (get_elem? fields field)) [
  | none ↦ st
  | some k ↦ record st {
    values = set st.values field (
        if is_dir_kind (some k)
        then (if places.is_file path then parent_or (parent path) path else path)
        else path);
    dirty = true;
  }
]
