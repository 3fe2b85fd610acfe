-- ===== src/Screen/Main.antt =====
-- The keys of the application (tui/src/main.rs, `on_key`).
pub mod Logs
pub mod Settings
use nixnas.Base.{Bool, true, false, ◌&&◌, ◌==◌, if◌then◌else◌}
use nixnas.Base.Text.{Text}
use nixnas.Log.Session as Log
use nixnas.Screen.App.{
  App, ScreenName, configure, build_flash, build, flash, verify, build_flash_key, build_key,
  flash_key, verify_key, configure_key,
}
use nixnas.Screen.Configure as Configure
use nixnas.Screen.Home as Home
use nixnas.Screen.Key.{KeyCode, char, Answers}

-- What the outside says while one key is handled.
pub record Outside : Type 0 where
  pub answers : Answers
  pub log : Log.Answers
  pub stamp : Text
  pub found : Home.Found
  pub configuring : Configure.Answers

unfoldable pub dispatch : Outside → KeyCode → ScreenName → App → App
unfolding Home.on_key configure_key build_flash_key build_key flash_key verify_key
dispatch o k ScreenName.home app = Home.on_key o.answers o.log o.stamp o.found k app
dispatch o k configure app = configure_key o.configuring k app
dispatch o k build_flash app = build_flash_key o.answers o.log o.stamp k app
dispatch o k build app = build_key o.answers o.log o.stamp k app
dispatch o k flash app = flash_key o.answers o.log o.stamp k app
dispatch o k verify app = verify_key o.answers o.log o.stamp k app

abbrev pub is_c : KeyCode → Bool
is_c (char c) = c == b'c'
is_c _ = false

-- `on_key`: Ctrl+C leaves at once.
unfoldable pub on_key : Outside → (control : Bool) → KeyCode → App → App
unfolding dispatch
on_key o control k app =
    let shown = dispatch o k app.screen app in
    if control && is_c k then record app { quit = true } else shown
