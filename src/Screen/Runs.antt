-- ===== src/Screen/Runs.antt =====
-- The application over any sequence of frames and keys (tui/src/main.rs): its session log and its settings.
use nixnas.Base.{Bool, true, false, Option, ◌≡◌, ok, ◌&&◌, subst, sym, refl, if_elim}
use nixnas.Base.Text.{Text}
use nixnas.Config.{Config, Stored, load}
use nixnas.Log.Session as Log
use nixnas.Log.Session.{Disk, Session}
use nixnas.Log.Session.Laws.{Logged, opened_session}
use nixnas.Screen.App.{App, ScreenName, new, Sent, drain_all, serve_pick}
use nixnas.Screen.Main.Settings.{HoldsFile, on_key-HoldsFile, serve-HoldsFile}
use nixnas.Screen.Main.Logs.{drain_all-Logged, asked_home, GoesOn, dispatch-GoesOn, serve-Logged}
use nixnas.Screen.Main.{Outside, dispatch, is_c, on_key}
use nixnas.Screen.Configure.Browse.{Places}
use nixnas.Screen.Key.{KeyCode, enter, Answers}

-- A run of the program, from the directory of the logs and a settings' file that could be loaded: frames,
-- keys, and picked paths, as long as it has not quit.
pub data Runs (before : Disk) : App → Type 0 where
  started :
      (path : Text) (file : Stored) (cfg : Config) (dir : Option Text)
      → load file ≡ ok cfg
      → Runs before (new path file cfg (record { log = Log.new dir; disk = before }))
  frame :
      {app : App} (o : Answers) (ans : Log.Answers) (sent : Sent)
      → Runs before app
      → Runs before (drain_all o ans sent app)
  pressed :
      {app : App} (o : Outside) (control : Bool) (k : KeyCode)
      → Runs before app
      → (on_key o control k app).quit ≡ false
      → Runs before (on_key o control k app)
  served :
      {app : App} (places : Places) (picked : Option Text)
      → Runs before app
      → Runs before (serve_pick places picked app)

pub Runs-Logged : {before : Disk} {app : App} → Runs before app → Logged before app.session
unfolding on_key serve_pick
Runs-Logged (started path file cfg dir e) = opened_session dir
Runs-Logged (frame {app} o ans sent past) = drain_all-Logged o ans sent app (Runs-Logged past)
Runs-Logged {before} (pressed {app} o control k past on) =
    if_elim (GoesOn before) (control && is_c k) (λ _ e. cc e)
      (λ _. dispatch-GoesOn o k app.screen app (Runs-Logged past)) on
Runs-Logged (served {app} places picked past) =
    serve-Logged places picked app.yazi_pick app (Runs-Logged past)

-- After any run of the program, Enter at the question of the exit prompt quits and leaves the directory of
-- the logs as the program found it, if no file resists its removal.
pub exit-restores :
    {before : Disk} {app : App} (o : Outside)
    → Runs before app
    → app.screen ≡ ScreenName.home
    → app.home.exit_prompt ≡ true
    → ((p : Text) → o.log.stuck p ≡ false)
    → let app' = on_key o false enter app in (app'.quit ≡ true) × (app'.session.disk ≡ before)
unfolding on_key
exit-restores {before} {app} o past here asked free =
    subst (λ name. let a = dispatch o enter name app in (a.quit ≡ true) × (a.session.disk ≡ before))
      (sym here) (asked_home o.answers o.log o.stamp o.found app (Runs-Logged past) asked free)

-- Whenever a key was pressed, the settings' file could be written.
unfoldable pub writable : {before : Disk} {app : App} → Runs before app → Bool
writable (started path file cfg dir e) = true
writable (frame o ans sent past) = writable past
writable (pressed o control k past on) = let rest = writable past in o.configuring.writes && rest
writable (served places picked past) = writable past

both : (a b : Bool) → a && b ≡ true → (a ≡ true) × (b ≡ true)
both true b e = (refl, e)
both false b e = cc e

-- In any run of the program that has started by loading its settings, and in which the settings'
-- file can be written whenever a key is pressed, the settings in use are those that loading the file
-- again would give, whatever was typed, picked and saved meanwhile.
pub Runs-HoldsFile :
    {before : Disk} {app : App} (run : Runs before app) → writable run ≡ true → HoldsFile app
unfolding drain_all serve_pick writable
Runs-HoldsFile (started path file cfg dir e) w = e
Runs-HoldsFile (frame o ans sent past) w = Runs-HoldsFile past w
Runs-HoldsFile (pressed {app} o control k past on) w =
    let (now, rest) = both o.configuring.writes (writable past) w in
    on_key-HoldsFile o control k app now (Runs-HoldsFile past rest)
Runs-HoldsFile (served {app} places picked past) w =
    serve-HoldsFile places picked app.yazi_pick app (Runs-HoldsFile past w)
