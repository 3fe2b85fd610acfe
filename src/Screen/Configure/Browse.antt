-- ===== src/Screen/Configure/Browse.antt =====
-- The file browser of CONFIGURE (tui/src/ui/configure.rs, `Browser`). What the file system shows is an
-- argument, and so is `to_lowercase`, which follows Unicode.
use nixnas.Base.{
  ℕ, ◌+◌, ◌-◌, min, Bool, false, not, ◌&&◌, ◌||◌, ◌==◌, List, [], ◌∷◌, ◌++◌, Option, none, some,
  if◌then◌else◌, length, keep_if, get_elem?, is_empty, pop,
}
use nixnas.Base.FilePath.{join, parent, is_absolute}
use nixnas.Base.Text.{Text, trim, starts_with}
use nixnas.Screen.Key.{KeyCode, esc, enter, up, down, backspace, char}
use nixnas.Verify.Steps.{text_lt}

-- What the file system shows: the names in a directory with whether each is one, none where it cannot be
-- read.
pub record Places : Type 0 where
  pub list : Text → List (Text × Bool)
  pub is_dir : Text → Bool
  pub is_file : Text → Bool
  pub canonicalize : Text → Option Text
  pub lower : Text → Text
  pub is_control : ℕ → Bool

pub record Browser : Type 0 where
  pub field : ℕ
  pub pick_dir : Bool
  pub cwd : Text
  pub entries : List (Text × Bool)
  pub selected : ℕ
  pub show_hidden : Bool
  pub filter : Text

-- `str::contains`
unfoldable pub contains : Text → Text → Bool
unfolding starts_with
contains needle [] = is_empty needle
contains needle (c ∷ t) = let rest = contains needle t in starts_with needle (c ∷ t) || rest

module _ (places : Places) where
  -- Directories first, then by the name in lower case.
  abbrev not_after : Text × Bool → Text × Bool → Bool
  not_after (a, a_dir) (b, b_dir) =
      (a_dir && not b_dir)
      || ((a_dir || not b_dir) && not (text_lt (places.lower b) (places.lower a)))

  unfoldable pub insert_entry : Text × Bool → List (Text × Bool) → List (Text × Bool)
  unfolding text_lt
  insert_entry e [] = e ∷ []
  insert_entry e (d ∷ ds) =
      let rest = insert_entry e ds in if not_after e d then e ∷ d ∷ ds else d ∷ rest

  unfoldable pub sort_entries : List (Text × Bool) → List (Text × Bool)
  unfolding insert_entry
  sort_entries [] = []
  sort_entries (e ∷ es) = insert_entry e (sort_entries es)

  abbrev is_shown : Bool → Text × Bool → Bool
  is_shown show_hidden e = show_hidden || not (starts_with (b'.' ∷ []) e.0)

  -- `Browser::reread`
  unfoldable pub reread : Browser → Browser
  unfolding sort_entries starts_with
  reread b = record b {
    entries = sort_entries (keep_if (is_shown b.show_hidden) (places.list b.cwd));
    selected = 0;
  }

  -- `Browser::new`
  unfoldable pub new : ℕ → Bool → Text → Browser
  unfolding reread
  new field pick_dir start = reread (record {
    field = field;
    pick_dir = pick_dir;
    cwd = start;
    entries = [];
    selected = 0;
    show_hidden = false;
    filter = [];
  })

  abbrev matches : Text → Text × Bool → Bool
  matches needle e = is_empty needle || contains needle (places.lower e.0)

  -- `Browser::visible`, as the entries themselves in place of their indices.
  unfoldable pub visible : Browser → List (Text × Bool)
  unfolding contains
  visible b = keep_if (matches (places.lower b.filter)) b.entries

  abbrev pub one_if : Bool → ℕ
  one_if b = if b then 1 else 0

  -- `Browser::row_count`
  abbrev pub row_count : Browser → ℕ
  row_count b = length (visible b) + one_if b.pick_dir

  -- `Browser::descend`
  abbrev pub descend : Text → Browser → Browser
  descend name b = reread (record b { cwd = join b.cwd name; filter = [] })

  abbrev ascend_to : Option Text → Browser → Browser
  ascend_to none b = b
  ascend_to (some above) b = reread (record b { cwd = above; filter = [] })

  -- `Browser::ascend`
  abbrev pub ascend : Browser → Browser
  ascend b = ascend_to (parent b.cwd) b

  -- What a key in the browser leads to.
  pub data Browsing : Type 0 where
    closed : Browsing
    browsing : Browser → Browsing
    picked : (field : ℕ) (path : Text) → Browsing

  abbrev choose : Option (Text × Bool) → Browser → Browsing
  choose none b = browsing b
  choose (some (name, is_dir)) b =
      if is_dir
      then browsing (descend name b)
      else if b.pick_dir
      then browsing b
      else picked b.field (join b.cwd name)

  abbrev erase : Text → Browser → Browser
  erase [] b = ascend b
  erase (c ∷ filter) b = record b { filter = pop (c ∷ filter); selected = 0 }

  -- `browser_key`
  unfoldable pub browser_key : KeyCode → Browser → Browsing
  unfolding reread visible join parent
  browser_key esc b = closed
  browser_key up b = browsing (record b { selected = b.selected - 1 })
  browser_key down b = browsing (record b { selected = min (b.selected + 1) (row_count b - 1) })
  browser_key backspace b = browsing (erase b.filter b)
  browser_key enter b =
      if b.pick_dir && b.selected == 0
      then picked b.field b.cwd
      else choose (get_elem? (visible b) (b.selected - one_if b.pick_dir)) b
  browser_key (char c) b =
      if c == b'.'
      then browsing (reread (record b { show_hidden = not b.show_hidden }))
      else if places.is_control c
      then browsing b
      else browsing (record b { filter = b.filter ++ (c ∷ []); selected = one_if b.pick_dir })
  browser_key _ b = browsing b

  abbrev candidate : Text → Text → Text
  candidate base value =
      if is_empty (trim value)
      then base
      else if is_absolute (trim value)
      then trim value
      else join base (trim value)

  abbrev or_base : Option Text → Text → Text
  or_base none base = base
  or_base (some p) base = p

  abbrev start_dir : Text → Text → Text
  start_dir base path =
      if places.is_dir path
      then path
      else if places.is_file path
      then or_base (parent path) base
      else base

  -- `browser_start`, from the directory of the settings' file.
  unfoldable pub browser_start : Text → Text → Text
  unfolding trim join parent
  browser_start base value =
      let dir = start_dir base (candidate base value) in or_base (places.canonicalize dir) dir
