-- ===== src/Screen/Flash.antt =====
-- The FLASH screen (tui/src/ui/flash.rs): every gate in front of the overwriting of a device.
pub mod Events
pub mod Gates
pub mod Typed
pub mod Reach
use nixnas.Base.{
  ℕ, suc, ◌+◌, ◌-◌, min, Bool, true, false, not, ◌||◌, ◌==◌, leb, ltb, List, [], ◌∷◌, ◌++◌, Option,
  none, some, Result, ok, err, if◌then◌else◌, length, get_elem?, pop, is_empty, is_some,
}
use nixnas.Base.Text.{Text, codes, text_eq, trim}
use nixnas.Config.{backup_path}
use nixnas.Flash.Disks.{Disk, dev_path}
use nixnas.Flash.Events.{FlashEvent}
use nixnas.Sudo.Command.{
  Secret, Elevation, sudo, Preflight, needs_sudo, no_sudo, preflight, AuthOutcome, wrong, missing,
  error, authenticate,
}
use nixnas.Screen.Key.{
  KeyCode, esc, enter, up, down, backspace, char, Answers, Reply, stay, begin, home, LogCall,
}

pub data Phase : Type 0 where
  devices summary backup_ask : Phase
  store_pass : Text → Phase
  confirm : Text → Option Text → Phase
  sudo_pass : Text → Option Text → Phase
  running : Phase
  done : Bool → Phase

-- The arguments of `spawn_flash`, for the receiver of a running worker.
pub record Job : Type 0 where
  pub image : Text
  pub dev : Text
  pub dev_size : Option ℕ
  pub backup_to : Option Text
  pub grow : Bool
  pub store_pass : Option Secret
  pub elev : Elevation

pub record FlashScreen : Type 0 where
  pub image : Option (Text × ℕ)
  pub disks : List Disk
  pub selected : ℕ
  pub list_error : Option Text
  pub backup : Bool
  pub store_pass : Option Text
  pub phase : Phase
  pub rx : Option Job
  pub gauge_title : Text
  pub progress : ℕ × ℕ
  pub message : Option Text
  pub session_log : Option Text

-- `refresh_disks`; the selection stays in range.
unfoldable pub refresh_disks : Result Text (List Disk) → FlashScreen → FlashScreen
refresh_disks (ok disks) st = record st {
  disks = disks;
  list_error = none;
  selected = min st.selected (length disks - 1);
}
refresh_disks (err e) st = record st { disks = []; list_error = some e; selected = 0 }

abbrev fresh : Option (Text × ℕ) → Option Text → Phase → FlashScreen
fresh image message phase = record {
  image = image;
  disks = [];
  selected = 0;
  list_error = none;
  backup = true;
  store_pass = none;
  phase = phase;
  rx = none;
  gauge_title = [];
  progress = (0, 0);
  message = message;
  session_log = none;
}

-- `FlashScreen::new`, from the search for a built image and its size.
unfoldable pub new : Result Text (Text × ℕ) → Result Text (List Disk) → FlashScreen
unfolding refresh_disks
new (ok image) disks = refresh_disks disks (fresh (some image) none devices)
new (err e) disks = refresh_disks disks (fresh none (some e) (done false))

abbrev pub is_running : FlashScreen → Bool
is_running st = elim st.phase [ running ↦ true | _ ↦ false ]

abbrev pub selected_disk : FlashScreen → Option Disk
selected_disk st = get_elem? st.disks st.selected

abbrev pub size_of : Option Disk → Option ℕ
size_of none = none
size_of (some d) = d.size

abbrev pub fits : Option (Text × ℕ) → Option ℕ → Bool
fits (some (_, img)) (some dev) = leb img dev
fits (some _) none = true
fits none _ = true

abbrev pub grows : Option (Text × ℕ) → Option ℕ → Bool
grows (some (_, img)) (some dev) = ltb img dev
grows (some _) none = false
grows none _ = false

-- The image is not larger than the device, as far as its size is known.
abbrev pub image_fits : FlashScreen → Bool
image_fits st = fits st.image (size_of (selected_disk st))

-- The image is smaller than the device.
abbrev pub grows_to_fill : FlashScreen → Bool
grows_to_fill st = grows st.image (size_of (selected_disk st))

abbrev pub to_secret : Option Text → Option Secret
to_secret none = none
to_secret (some t) = some (record { bytes = t })

-- `arm`. The source panics without an image; here nothing changes then.
unfoldable pub arm : Text → Option Text → Elevation → FlashScreen → Reply FlashScreen
arm config_path log_file elev st = elim (selected_disk st) [
  | none ↦ stay st
  | some d ↦ elim st.image [
    | none ↦ stay st
    | some (image, _) ↦ begin (codes "flash") (record st {
      store_pass = none;
      session_log = log_file;
      rx = some (record {
        image = image;
        dev = dev_path d;
        dev_size = d.size;
        backup_to = if st.backup then some (backup_path config_path) else none;
        grow = grows_to_fill st;
        store_pass = to_secret st.store_pass;
        elev = elev;
      });
      phase = running;
    })
  ]
]

abbrev to_phase : FlashScreen → Phase → Reply FlashScreen
to_phase st p = stay (record st { phase = p })

abbrev failed : FlashScreen → Text → Reply FlashScreen
failed st message = stay (record st { message = some message; phase = done false })

abbrev is_char : ℕ → ℕ → ℕ → Bool
is_char c low high = c == low || c == high

devices_key : Answers → KeyCode → FlashScreen → Reply FlashScreen
devices_key o esc st = home
devices_key o up st = stay (record st { selected = st.selected - 1 })
devices_key o down st = stay (record st { selected = min (st.selected + 1) (length st.disks - 1) })
devices_key o enter st = if is_some (selected_disk st) then to_phase st summary else stay st
devices_key o (char c) st =
    if c == b'k'
    then stay (record st { selected = st.selected - 1 })
    else if c == b'j'
    then stay (record st { selected = min (st.selected + 1) (length st.disks - 1) })
    else if c == b'r'
    then stay (refresh_disks o.disks st)
    else stay st
devices_key o _ st = stay st

summary_key : KeyCode → FlashScreen → Reply FlashScreen
summary_key esc st = to_phase st devices
summary_key enter st = if image_fits st then to_phase st backup_ask else stay st
summary_key _ st = stay st

abbrev answered : Bool → FlashScreen → Reply FlashScreen
answered backup st = stay (record st {
  backup = backup;
  phase = if grows_to_fill st then Phase.store_pass [] else confirm [] none;
})

backup_ask_key : KeyCode → FlashScreen → Reply FlashScreen
backup_ask_key esc st = to_phase st summary
backup_ask_key (char c) st =
    if is_char c b'y' b'Y'
    then answered true st
    else if is_char c b'n' b'N'
    then answered false st
    else stay st
backup_ask_key _ st = stay st

store_pass_key : Text → KeyCode → FlashScreen → Reply FlashScreen
store_pass_key buf esc st = to_phase st summary
store_pass_key buf enter st =
    stay
      (record st { store_pass = if is_empty buf then none else some buf; phase = confirm [] none })
store_pass_key buf backspace st = to_phase st (Phase.store_pass (pop buf))
store_pass_key buf (char c) st = to_phase st (Phase.store_pass (buf ++ (c ∷ [])))
store_pass_key buf _ st = stay st

-- After the typed name has matched.
abbrev elevate : Text → Answers → FlashScreen → Reply FlashScreen
elevate config_path o st = elim (preflight o.is_root o.sudo_on_path) [
  | Preflight.root ↦ arm config_path o.log_file Elevation.root st
  | needs_sudo ↦ to_phase st (sudo_pass [] none)
  | no_sudo ↦ failed st (codes "sudo is not installed — run nixnas as root to flash the device.")
]

abbrev not_matching : Text → Text → Text
not_matching typed name =
    codes "`" ++ (typed ++ (codes "` does not match `" ++ (name ++ codes "` — nothing written")))

confirm_key : Text → Answers → Text → Option Text → KeyCode → FlashScreen → Reply FlashScreen
confirm_key config_path o typed e esc st = to_phase st summary
confirm_key config_path o typed e backspace st = to_phase st (confirm (pop typed) e)
confirm_key config_path o typed e (char c) st = to_phase st (confirm (typed ++ (c ∷ [])) e)
confirm_key config_path o typed e enter st = elim (selected_disk st) [
  | none ↦ to_phase st (confirm [] e)
  | some d ↦
      if text_eq (trim typed) d.name
      then elevate config_path o (record st { phase = confirm [] e })
      else to_phase st (confirm [] (some (not_matching (trim typed) d.name)))
]
confirm_key config_path o typed e _ st = stay st

-- After the sudo password has been tried.
abbrev authenticated : Text → Answers → AuthOutcome → FlashScreen → Reply FlashScreen
authenticated config_path o (AuthOutcome.ok elev) st = arm config_path o.log_file elev st
authenticated config_path o wrong st =
    to_phase st (sudo_pass [] (some (codes "Wrong sudo password — try again")))
authenticated config_path o missing st =
    failed st (codes "sudo is not installed — run nixnas as root.")
authenticated config_path o (error message) st = failed st message

sudo_pass_key : Text → Answers → Text → Option Text → KeyCode → FlashScreen → Reply FlashScreen
sudo_pass_key config_path o buf e esc st = to_phase st summary
sudo_pass_key config_path o buf e enter st =
    authenticated config_path o (authenticate o.sudo buf) (record st { phase = sudo_pass [] e })
sudo_pass_key config_path o buf e backspace st = to_phase st (sudo_pass (pop buf) e)
sudo_pass_key config_path o buf e (char c) st = to_phase st (sudo_pass (buf ++ (c ∷ [])) e)
sudo_pass_key config_path o buf e _ st = stay st

done_key : KeyCode → FlashScreen → Reply FlashScreen
done_key esc st = home
done_key enter st = home
done_key _ st = stay st

dispatch : Text → Answers → Phase → KeyCode → FlashScreen → Reply FlashScreen
dispatch path o devices k st = devices_key o k st
dispatch path o summary k st = summary_key k st
dispatch path o backup_ask k st = backup_ask_key k st
dispatch path o (Phase.store_pass buf) k st = store_pass_key buf k st
dispatch path o (confirm typed e) k st = confirm_key path o typed e k st
dispatch path o (sudo_pass buf e) k st = sudo_pass_key path o buf e k st
dispatch path o running k st = stay st
dispatch path o (done _) k st = done_key k st

-- `on_key`
unfoldable pub on_key : Text → Answers → KeyCode → FlashScreen → Reply FlashScreen
unfolding dispatch devices_key summary_key backup_ask_key store_pass_key confirm_key sudo_pass_key
    done_key
on_key config_path o k st = dispatch config_path o st.phase k st
