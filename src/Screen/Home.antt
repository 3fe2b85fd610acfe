-- ===== src/Screen/Home.antt =====
-- The HOME screen (tui/src/ui/home.rs): the menu, and the way out of the program.
pub mod Safe
use nixnas.Base.{
  ℕ, zero, suc, ◌+◌, ◌-◌, ◌%◌, Bool, true, false, ◌||◌, ◌==◌, List, [], ◌∷◌, Option, none, some,
  is_some, is_empty, not, if◌then◌else◌, Result,
}
use nixnas.Base.Text.{Text, codes}
use nixnas.Log.Session as Log
use nixnas.Screen.App.{
  ScreenName, configure, build_flash, build, flash, verify, HomeState, App, is_some_and,
}
use nixnas.Screen.Build as Build
use nixnas.Screen.BuildFlash as BuildFlash
use nixnas.Screen.Configure as Configure
use nixnas.Screen.Flash as Flash
use nixnas.Screen.Key.{KeyCode, enter, esc, up, down, char, Answers}
use nixnas.Screen.Verify as Verify

-- The entries of the menu: `MENU.len()`
abbrev pub menu_len : ℕ
menu_len = 7

abbrev pub has_files : App → Bool
has_files app = not (is_empty app.session.log.files)

-- `request_quit`
unfoldable pub request_quit : App → App
request_quit app =
    if has_files app
    then record app { home = record app.home { exit_prompt = true } }
    else record app { quit = true }

abbrev pub cleaned : Log.Answers → App → App
cleaned ans app = record app { session = Log.clean ans app.session; quit = true }

abbrev pub kept : Log.Answers → App → App
kept ans app = record app { session = Log.keep_and_prune ans app.session; quit = true }

-- The modal that asks what becomes of the session's logs.
unfoldable pub exit_key : Log.Answers → KeyCode → App → App
unfolding Log.clean Log.keep_and_prune
exit_key ans enter app = cleaned ans app
exit_key ans esc app = cleaned ans app
exit_key ans (char c) app =
    if c == b'c' || c == b'C'
    then cleaned ans app
    else if c == b'k' || c == b'K'
    then kept ans app
    else app
exit_key ans _ app = app

-- `checked_sub(1).unwrap_or(MENU.len() - 1)`
abbrev pub wrapped_up : ℕ → ℕ
wrapped_up n = if n == 0 then menu_len - 1 else n - 1

abbrev pub select : App → ℕ → App
select app n = record app { home = record app.home { selected = n } }

abbrev pub go_up : App → App
go_up app = select app (wrapped_up app.home.selected)

abbrev pub go_down : App → App
go_down app = select app ((app.home.selected + 1) % menu_len)

-- A screen whose worker runs stays; any other is opened anew.
abbrev pub unless_running : {S : Type 0} → (S → Bool) → Option S → S → Option S
unless_running is_running old fresh = if is_some_and is_running old then old else some fresh

-- What the search for a built image finds, with its size.
abbrev pub Found : Type 0
Found = Result Text (Text × ℕ)

abbrev pub found_option : Found → Option (Text × ℕ)
found_option (Result.ok pair) = some pair
found_option (Result.err _) = none

-- A verification of the image starts in the constructor; the log is begun only if it has started.
abbrev pub fresh_image : Log.Answers → Text → Verify.VerifyScreen → App → App
fresh_image ans stamp fresh app =
    let begun = Log.begin ans (codes "verify-image") stamp app.session in
    if Verify.is_running fresh
    then record app { verify = some (record fresh { session_log = begun.0 }); session = begun.1 }
    else record app { verify = some fresh }

abbrev pub verify_image : Log.Answers → Text → Found → App → App
verify_image ans stamp found app =
    if is_some_and Verify.is_running app.verify
    then app
    else fresh_image ans stamp (Verify.new_image found) app

module _ (o : Answers) (ans : Log.Answers) (stamp : Text) (found : Found) where
  -- Enter on an entry of the menu
  unfoldable pub enter_key : ℕ → App → App
  unfolding Configure.from_config BuildFlash.new Build.new Flash.new Verify.new_image
      Verify.new_install Log.begin request_quit
  enter_key zero app = record app {
    configure = some (Configure.from_config app.cfg o.yazi);
    screen = configure;
  }
  enter_key (suc zero) app = record app {
    buildflash =
        unless_running BuildFlash.is_running app.buildflash (BuildFlash.new app.cfg o.disks);
    screen = build_flash;
  }
  enter_key (suc (suc zero)) app = record app {
    build = unless_running Build.is_running app.build (Build.new app.cfg);
    screen = build;
  }
  enter_key (suc (suc (suc zero))) app = record app {
    flash = unless_running Flash.is_running app.flash (Flash.new found o.disks);
    screen = flash;
  }
  enter_key (suc (suc (suc (suc zero)))) app = record (verify_image ans stamp found app) {
    screen = verify;
  }
  enter_key (suc (suc (suc (suc (suc zero))))) app = record app {
    verify =
        unless_running Verify.is_running app.verify
          (Verify.new_install (found_option found) o.disks);
    screen = verify;
  }
  enter_key _ app = request_quit app

  unfoldable pub menu_key : KeyCode → App → App
  unfolding enter_key
  menu_key up app = go_up app
  menu_key down app = go_down app
  menu_key enter app = enter_key app.home.selected app
  menu_key (char c) app =
      if c == b'k'
      then go_up app
      else if c == b'j'
      then go_down app
      else if c == b'q'
      then request_quit app
      else app
  menu_key _ app = app

  -- `on_key`
  unfoldable pub on_key : KeyCode → App → App
  unfolding exit_key menu_key
  on_key k app =
      let menu = menu_key k app in if app.home.exit_prompt then exit_key ans k app else menu
