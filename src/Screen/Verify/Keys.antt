-- ===== src/Screen/Verify/Keys.antt =====
-- The keys of the VERIFY screen (tui/src/ui/verify.rs, `on_key`).
pub mod Safe
use nixnas.Base.{
  ℕ, ◌+◌, ◌-◌, min, Bool, true, false, ◌==◌, List, [], ◌∷◌, ◌++◌, Option, none, some, if◌then◌else◌,
  length, pop,
}
use nixnas.Base.Text.{Text, codes}
use nixnas.Flash.Disks.{dev_path}
use nixnas.Sudo.Command.{
  Elevation, Preflight, needs_sudo, no_sudo, preflight, AuthOutcome, wrong, missing, error,
  authenticate,
}
use nixnas.Screen.Key.{
  KeyCode, esc, enter, up, down, page_up, page_down, end, backspace, char, Answers, Reply, stay,
  home,
}
use nixnas.Screen.Verify.{
  VerifyMode, install, Phase, devices, running, sudo_pass, done, VerifyScreen, refresh_disks,
  selected_disk, arm_install,
}

abbrev go_up : VerifyScreen → Reply VerifyScreen
go_up st = stay (record st { selected = st.selected - 1 })

abbrev go_down : VerifyScreen → Reply VerifyScreen
go_down st = stay (record st { selected = min (st.selected + 1) (length st.disks - 1) })

-- Enter on a device: without sudo, a direct read is tried all the same.
abbrev elevate : Answers → Text → VerifyScreen → Reply VerifyScreen
elevate o dev st = elim (preflight o.is_root o.sudo_on_path) [
  | Preflight.root ↦ arm_install o.log_file dev Elevation.root st
  | needs_sudo ↦ stay (record st { pending_dev = some dev; phase = sudo_pass [] none })
  | no_sudo ↦ arm_install o.log_file dev Elevation.root st
]

devices_key : Answers → KeyCode → VerifyScreen → Reply VerifyScreen
devices_key o esc st = home
devices_key o up st = go_up st
devices_key o down st = go_down st
devices_key o enter st = elim (selected_disk st) [
  | none ↦ stay st
  | some d ↦ elevate o (dev_path d) st
]
devices_key o (char c) st =
    if c == b'k'
    then go_up st
    else if c == b'j'
    then go_down st
    else if c == b'r'
    then stay (refresh_disks o.disks st)
    else stay st
devices_key o _ st = stay st

abbrev arm_pending : Option Text → Elevation → Option Text → VerifyScreen → Reply VerifyScreen
arm_pending log_file elev none st = stay st
arm_pending log_file elev (some dev) st = arm_install log_file dev elev st

-- After the sudo password has been tried.
abbrev authenticated : Answers → AuthOutcome → VerifyScreen → Reply VerifyScreen
authenticated o (AuthOutcome.ok elev) st = arm_pending o.log_file elev st.pending_dev st
authenticated o wrong st =
    stay (record st { phase = sudo_pass [] (some (codes "Wrong sudo password — try again")) })
authenticated o missing st = arm_pending o.log_file Elevation.root st.pending_dev st
authenticated o (error message) st = stay (record st { message = some message; phase = done false })

sudo_pass_key : Answers → Text → Option Text → KeyCode → VerifyScreen → Reply VerifyScreen
sudo_pass_key o buf e esc st = stay (record st { phase = devices })
sudo_pass_key o buf e enter st =
    authenticated o (authenticate o.sudo buf) (record st { phase = sudo_pass [] e })
sudo_pass_key o buf e backspace st = stay (record st { phase = sudo_pass (pop buf) e })
sudo_pass_key o buf e (char c) st = stay (record st { phase = sudo_pass (buf ++ (c ∷ [])) e })
sudo_pass_key o buf e _ st = stay st

-- The keys that move through the findings.
scroll_key : KeyCode → VerifyScreen → Reply VerifyScreen
scroll_key up st = stay (record st { follow = false; scroll = st.scroll - 1 })
scroll_key down st = stay (record st { scroll = st.scroll + 1 })
scroll_key page_up st = stay (record st { follow = false; scroll = st.scroll - 20 })
scroll_key page_down st = stay (record st { scroll = st.scroll + 20 })
scroll_key end st = stay (record st { follow = true })
scroll_key (char c) st = if c == b'f' then stay (record st { follow = true }) else stay st
scroll_key _ st = stay st

abbrev skipping : VerifyMode → VerifyScreen → Reply VerifyScreen
skipping install st = stay (record st { skip = true })
skipping VerifyMode.image st = stay st

running_key : KeyCode → VerifyScreen → Reply VerifyScreen
running_key (char c) st =
    let other = scroll_key (char c) st in if c == b's' then skipping st.mode st else other
running_key k st = scroll_key k st

done_key : KeyCode → VerifyScreen → Reply VerifyScreen
done_key esc st = home
done_key enter st = home
done_key k st = scroll_key k st

dispatch : Answers → Phase → KeyCode → VerifyScreen → Reply VerifyScreen
dispatch o devices k st = devices_key o k st
dispatch o (sudo_pass buf e) k st = sudo_pass_key o buf e k st
dispatch o running k st = running_key k st
dispatch o (done _) k st = done_key k st

-- `on_key`
unfoldable pub on_key : Answers → KeyCode → VerifyScreen → Reply VerifyScreen
unfolding dispatch devices_key sudo_pass_key scroll_key running_key done_key
on_key o k st = dispatch o st.phase k st
