-- ===== src/Screen/BuildFlash/Keys.antt =====
-- The keys of the BUILD & FLASH screen (tui/src/ui/buildflash.rs, `on_key`).
pub mod Safe
use nixnas.Base.{
  ℕ, ◌+◌, ◌-◌, min, Bool, true, false, ◌||◌, ◌==◌, List, [], ◌∷◌, ◌++◌, Option, none, some, ok, err,
  if◌then◌else◌, length, pop, is_empty, replicate,
}
use nixnas.Base.Text.{Text, codes, text_eq, trim}
use nixnas.Build.Steps.{pending}
use nixnas.Build.Target.{check_target_bytes}
use nixnas.Config.{Config}
use nixnas.Sudo.Command.{
  Elevation, Preflight, needs_sudo, no_sudo, preflight, AuthOutcome, wrong, missing, error,
  authenticate,
}
use nixnas.Screen.Key.{
  KeyCode, esc, enter, up, down, page_up, page_down, end, backspace, char, Answers, Reply, stay,
  begin, home,
}
use nixnas.Screen.BuildFlash.{
  Stage, unavailable, pick_device, pass_first, pass_confirm, building, flash_review,
  flash_backup_ask, flash_confirm, flash_sudo, flashing, done, BuildJob, BuildFlowScreen,
  refresh_disks, selected_disk, image_fits, arm_flash,
}

abbrev to_stage : BuildFlowScreen → Stage → Reply BuildFlowScreen
to_stage st s = stay (record st { stage = s })

abbrev failed : BuildFlowScreen → Text → Reply BuildFlowScreen
failed st message = stay (record st { message = some message; stage = done false })

abbrev is_char : ℕ → ℕ → ℕ → Bool
is_char c low high = c == low || c == high

abbrev pick_failed : BuildFlowScreen → Text → Reply BuildFlowScreen
pick_failed st message = stay (record st { pick_error = some message })

-- Enter on a device: its exact size is asked for and has to be enough.
pick : Answers → Text → BuildFlowScreen → Reply BuildFlowScreen
pick o name st = elim (o.device_bytes name) [
  | none ↦ pick_failed st (codes "device size unknown — cannot size the image to it")
  | some bytes ↦ elim (check_target_bytes o.human_size bytes) [
    | ok _ ↦
        stay
          (record st { picked = some (name, bytes); pick_error = none; stage = pass_first [] none })
    | err e ↦ pick_failed st e
  ]
]

abbrev go_up : BuildFlowScreen → Reply BuildFlowScreen
go_up st = stay (record st { selected = st.selected - 1 })

abbrev go_down : BuildFlowScreen → Reply BuildFlowScreen
go_down st = stay (record st { selected = min (st.selected + 1) (length st.disks - 1) })

pick_device_key : Answers → KeyCode → BuildFlowScreen → Reply BuildFlowScreen
pick_device_key o esc st = home
pick_device_key o up st = go_up st
pick_device_key o down st = go_down st
pick_device_key o enter st = elim (selected_disk st) [ none ↦ stay st | some d ↦ pick o d.name st ]
pick_device_key o (char c) st =
    if c == b'k'
    then go_up st
    else if c == b'j'
    then go_down st
    else if c == b'r'
    then stay (refresh_disks o.disks st)
    else stay st
pick_device_key o _ st = stay st

pass_first_key : Text → Option Text → KeyCode → BuildFlowScreen → Reply BuildFlowScreen
pass_first_key buf e esc st = home
pass_first_key buf e enter st = to_stage st (
    if is_empty buf
    then pass_first [] (some (codes "Passphrase must not be empty"))
    else pass_confirm buf [])
pass_first_key buf e backspace st = to_stage st (pass_first (pop buf) e)
pass_first_key buf e (char c) st = to_stage st (pass_first (buf ++ (c ∷ [])) e)
pass_first_key buf e _ st = stay st

abbrev bytes_of : Option (Text × ℕ) → ℕ
bytes_of none = 0
bytes_of (some (_, b)) = b

-- `spawn_build` and what is set for it.
abbrev start_build : Text → Config → Option Text → Text → BuildFlowScreen → Reply BuildFlowScreen
start_build config_path cfg log_file passphrase st = begin (codes "build") (record st {
  session_log = log_file;
  steps = replicate 6 pending;
  log = [];
  stage = building;
  build_rx = some (record {
    config_path = config_path;
    config = cfg;
    passphrase = passphrase;
    bytes = bytes_of st.picked;
  });
})

pass_confirm_key :
    Text → Config → Answers → Text → Text → KeyCode → BuildFlowScreen → Reply BuildFlowScreen
pass_confirm_key path cfg o first buf esc st = home
pass_confirm_key path cfg o first buf enter st =
    if text_eq first buf
    then start_build path cfg o.log_file first st
    else to_stage st (pass_first [] (some (codes "Passphrases do not match — try again")))
pass_confirm_key path cfg o first buf backspace st = to_stage st (pass_confirm first (pop buf))
pass_confirm_key path cfg o first buf (char c) st =
    to_stage st (pass_confirm first (buf ++ (c ∷ [])))
pass_confirm_key path cfg o first buf _ st = stay st

building_key : KeyCode → BuildFlowScreen → Reply BuildFlowScreen
building_key up st = stay (record st { follow = false; scroll = st.scroll - 1 })
building_key down st = stay (record st { scroll = st.scroll + 1 })
building_key page_up st = stay (record st { follow = false; scroll = st.scroll - 20 })
building_key page_down st = stay (record st { scroll = st.scroll + 20 })
building_key end st = stay (record st { follow = true })
building_key (char c) st = if c == b'f' then stay (record st { follow = true }) else stay st
building_key _ st = stay st

review_key : KeyCode → BuildFlowScreen → Reply BuildFlowScreen
review_key esc st = home
review_key enter st = if image_fits st then to_stage st flash_backup_ask else stay st
review_key _ st = stay st

abbrev answered : Bool → BuildFlowScreen → Reply BuildFlowScreen
answered backup st = stay (record st { backup = backup; stage = flash_confirm [] none })

backup_ask_key : KeyCode → BuildFlowScreen → Reply BuildFlowScreen
backup_ask_key esc st = to_stage st flash_review
backup_ask_key (char c) st =
    if is_char c b'y' b'Y'
    then answered true st
    else if is_char c b'n' b'N'
    then answered false st
    else stay st
backup_ask_key _ st = stay st

-- After the typed name has matched.
abbrev elevate : Text → Answers → BuildFlowScreen → Reply BuildFlowScreen
elevate config_path o st = elim (preflight o.is_root o.sudo_on_path) [
  | Preflight.root ↦ arm_flash config_path o.log_file Elevation.root st
  | needs_sudo ↦ to_stage st (flash_sudo [] none)
  | no_sudo ↦ failed st (codes "sudo is not installed — run nixnas as root to flash the device.")
]

abbrev not_matching : Text → Text → Text
not_matching typed name =
    codes "`" ++ (typed ++ (codes "` does not match `" ++ (name ++ codes "` — nothing written")))

confirm_key :
    Text → Answers → Text → Option Text → KeyCode → BuildFlowScreen → Reply BuildFlowScreen
confirm_key path o typed e esc st = to_stage st flash_review
confirm_key path o typed e backspace st = to_stage st (flash_confirm (pop typed) e)
confirm_key path o typed e (char c) st = to_stage st (flash_confirm (typed ++ (c ∷ [])) e)
confirm_key path o typed e enter st = elim st.picked [
  | none ↦ to_stage st (flash_confirm [] e)
  | some (name, _) ↦
      if text_eq (trim typed) name
      then elevate path o (record st { stage = flash_confirm [] e })
      else to_stage st (flash_confirm [] (some (not_matching (trim typed) name)))
]
confirm_key path o typed e _ st = stay st

-- After the sudo password has been tried.
abbrev authenticated : Text → Answers → AuthOutcome → BuildFlowScreen → Reply BuildFlowScreen
authenticated path o (AuthOutcome.ok elev) st = arm_flash path o.log_file elev st
authenticated path o wrong st =
    to_stage st (flash_sudo [] (some (codes "Wrong sudo password — try again")))
authenticated path o missing st = failed st (codes "sudo is not installed — run nixnas as root.")
authenticated path o (error message) st = failed st message

sudo_key : Text → Answers → Text → Option Text → KeyCode → BuildFlowScreen → Reply BuildFlowScreen
sudo_key path o buf e esc st = to_stage st flash_review
sudo_key path o buf e enter st =
    authenticated path o (authenticate o.sudo buf) (record st { stage = flash_sudo [] e })
sudo_key path o buf e backspace st = to_stage st (flash_sudo (pop buf) e)
sudo_key path o buf e (char c) st = to_stage st (flash_sudo (buf ++ (c ∷ [])) e)
sudo_key path o buf e _ st = stay st

leave_key : KeyCode → BuildFlowScreen → Reply BuildFlowScreen
leave_key esc st = home
leave_key enter st = home
leave_key _ st = stay st

dispatch : Text → Config → Answers → Stage → KeyCode → BuildFlowScreen → Reply BuildFlowScreen
dispatch path cfg o unavailable k st = leave_key k st
dispatch path cfg o pick_device k st = pick_device_key o k st
dispatch path cfg o (pass_first buf e) k st = pass_first_key buf e k st
dispatch path cfg o (pass_confirm first buf) k st = pass_confirm_key path cfg o first buf k st
dispatch path cfg o building k st = building_key k st
dispatch path cfg o flash_review k st = review_key k st
dispatch path cfg o flash_backup_ask k st = backup_ask_key k st
dispatch path cfg o (flash_confirm typed e) k st = confirm_key path o typed e k st
dispatch path cfg o (flash_sudo buf e) k st = sudo_key path o buf e k st
dispatch path cfg o flashing k st = stay st
dispatch path cfg o (done _) k st = leave_key k st

-- `on_key`
unfoldable pub on_key : Text → Config → Answers → KeyCode → BuildFlowScreen → Reply BuildFlowScreen
unfolding dispatch leave_key pick_device_key pick pass_first_key pass_confirm_key building_key
    review_key backup_ask_key confirm_key sudo_key
on_key config_path cfg o k st = dispatch config_path cfg o st.stage k st
