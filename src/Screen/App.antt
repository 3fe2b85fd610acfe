-- ===== src/Screen/App.antt =====
-- The application (tui/src/main.rs): its screens, the session log, the drain of all workers, and the keys
-- of the screens that run workers. The settings' file is kept
-- beside them.
use nixnas.Base.{ℕ, Bool, false, ◌||◌, List, [], ◌∷◌, Option, none, some}
use nixnas.Base.Text.{Text}
use nixnas.Build.Steps.{BuildEvent}
use nixnas.Config.{Config, Table, Stored, table}
use nixnas.Flash.Events.{FlashEvent}
use nixnas.Log.Session as Log
use nixnas.Log.Session.{Session}
use nixnas.Screen.Build as Build
use nixnas.Screen.BuildFlash as BuildFlash
use nixnas.Screen.BuildFlash.Events as BuildFlashEvents
use nixnas.Screen.BuildFlash.Keys as BuildFlashKeys
use nixnas.Screen.Configure as Configure
use nixnas.Screen.Configure.{ConfigureState}
use nixnas.Screen.Configure.Browse.{Places}
use nixnas.Screen.Flash as Flash
use nixnas.Screen.Flash.Events as FlashEvents
use nixnas.Screen.Key.{KeyCode, Answers, Reply, stay, begin, left, LogCall}
use nixnas.Screen.Verify as Verify
use nixnas.Screen.Verify.Events as VerifyEvents
use nixnas.Screen.Verify.Keys as VerifyKeys
use nixnas.Verify.Events.{VerifyEvent}

pub data ScreenName : Type 0 where
  home configure build_flash build flash verify : ScreenName

pub record HomeState : Type 0 where
  pub selected : ℕ
  pub exit_prompt : Bool

pub record App : Type 0 where
  pub config_path : Text
  pub cfg : Config
  pub screen : ScreenName
  pub home : HomeState
  pub file : Stored  -- the settings' file
  pub configure : Option ConfigureState
  pub yazi_pick : Option (ℕ × Text)
  pub buildflash : Option BuildFlash.BuildFlowScreen
  pub build : Option Build.BuildScreen
  pub flash : Option Flash.FlashScreen
  pub verify : Option Verify.VerifyScreen
  pub session : Session
  pub quit : Bool

-- `App::new`
abbrev pub new : Text → Stored → Config → Session → App
new config_path file cfg session = record {
  config_path = config_path;
  cfg = cfg;
  screen = ScreenName.home;
  home = record { selected = 0; exit_prompt = false };
  file = file;
  configure = none;
  yazi_pick = none;
  buildflash = none;
  build = none;
  flash = none;
  verify = none;
  session = session;
  quit = false;
}

-- `is_some_and`
abbrev pub is_some_and : {S : Type 0} → (S → Bool) → Option S → Bool
is_some_and p none = false
is_some_and p (some s) = p s

-- `op_running`
unfoldable pub op_running : App → Bool
op_running app =
    is_some_and BuildFlash.is_running app.buildflash
    || (is_some_and Build.is_running app.build
        || (is_some_and Flash.is_running app.flash || is_some_and Verify.is_running app.verify))

abbrev pub tee_one : Log.Answers → LogCall → Session → Session
tee_one ans (LogCall.step name s) q = Log.step ans name s q
tee_one ans (LogCall.line l) q = Log.write_line ans l q
tee_one ans (LogCall.phase title) q = Log.phase ans title q
tee_one ans (LogCall.done good msg) q = Log.done ans good msg q

-- The calls of a drain, on the session log.
unfoldable pub tee : Log.Answers → List LogCall → Session → Session
unfolding Log.write_line Log.done
tee ans [] q = q
tee ans (c ∷ cs) q = tee ans cs (tee_one ans c q)

-- A screen that is there drains its worker's events.
abbrev pub drained :
    {S : Type 0} → Log.Answers → (S → S × List LogCall) → Option S → Session → Option S × Session
drained ans drain none q = (none, q)
drained ans drain (some s) q = (some (drain s).0, tee ans (drain s).1 q)

-- What the workers have sent since the last frame.
pub record Sent : Type 0 where
  pub built : List BuildEvent
  pub flashed : List FlashEvent
  pub build : List BuildEvent
  pub flash : List FlashEvent
  pub verify : List VerifyEvent

-- The drain at the head of the main loop, with the flush after it.
unfoldable pub drain_all : Answers → Log.Answers → Sent → App → App
unfolding tee BuildFlashEvents.drain_events Build.drain_events FlashEvents.drain_events
    VerifyEvents.drain_events
drain_all o ans sent app =
    let a =
      drained ans (BuildFlashEvents.drain_events o.file_size o.human_size sent.built sent.flashed)
        app.buildflash app.session in
    let b = drained ans (Build.drain_events sent.build) app.build a.1 in
    let c = drained ans (FlashEvents.drain_events sent.flash) app.flash b.1 in
    let d = drained ans (VerifyEvents.drain_events sent.verify) app.verify c.1 in
    record app {
      buildflash = a.0;
      build = b.0;
      flash = c.0;
      verify = d.0;
      session = record d.1 { log = Log.flush d.1.log };
    }

-- A reply on the application: a log that is begun gives its path to the screen.
abbrev pub replied :
    {S : Type 0}
    → Log.Answers
    → Text
    → (Option Text → Reply S)
    → Reply S
    → Session
    → Option S × Session
replied ans stamp reply (stay s) q = (some s, q)
replied ans stamp reply Reply.home q = (none, q)
replied ans stamp reply (begin action _) q =
    let begun = Log.begin ans action stamp q in (left (reply begun.0), begun.1)

abbrev pub press_on :
    {S : Type 0}
    → Log.Answers
    → Text
    → (Option Text → S → Reply S)
    → Option S
    → Session
    → Option S × Session
press_on ans stamp on_key none q = (none, q)
press_on ans stamp on_key (some s) q = replied ans stamp (λ file. on_key file s) (on_key none s) q

-- A screen that was there and is gone leads back to HOME.
abbrev pub back_home : {S : Type 0} → Option S → Option S → ScreenName → ScreenName
back_home (some _) none name = ScreenName.home
back_home _ _ name = name

module _ (o : Answers) (ans : Log.Answers) (stamp : Text) (k : KeyCode) (app : App) where
  abbrev with_file : Option Text → Answers
  with_file file = record o { log_file = file }

  -- The keys of the screens that run workers.
  unfoldable pub build_flash_key : App
  unfolding BuildFlashKeys.on_key Log.begin
  build_flash_key =
      let r =
        press_on ans stamp
          (λ file. BuildFlashKeys.on_key app.config_path app.cfg (with_file file) k) app.buildflash
          app.session in
      record app {
        buildflash = r.0;
        session = r.1;
        screen = back_home app.buildflash r.0 app.screen;
      }

  unfoldable pub build_key : App
  unfolding Build.on_key Log.begin
  build_key =
      let r = press_on ans stamp (λ file. Build.on_key (with_file file) k) app.build app.session in
      record app { build = r.0; session = r.1; screen = back_home app.build r.0 app.screen }

  unfoldable pub flash_key : App
  unfolding Flash.on_key Log.begin
  flash_key =
      let r =
        press_on ans stamp (λ file. Flash.on_key app.config_path (with_file file) k) app.flash
          app.session in
      record app { flash = r.0; session = r.1; screen = back_home app.flash r.0 app.screen }

  unfoldable pub verify_key : App
  unfolding VerifyKeys.on_key Log.begin
  verify_key =
      let r =
        press_on ans stamp (λ file. VerifyKeys.on_key (with_file file) k) app.verify app.session in
      record app { verify = r.0; session = r.1; screen = back_home app.verify r.0 app.screen }

-- A successful write replaces the file; one that fails may have truncated it before.
abbrev pub stored_after : Option Table → Option Stored → Stored → Stored
stored_after (some t) _ file = table t
stored_after none (some left) file = left
stored_after none none file = file

abbrev requested : Option (ℕ × Text) → Option (ℕ × Text) → Option (ℕ × Text)
requested none old = old
requested (some r) old = some r

-- What a key on CONFIGURE leaves of the application.
abbrev pub configured : Configure.Outcome → App → App
configured r app = record app {
  configure = r.screen;
  cfg = r.cfg;
  file = stored_after r.written r.torn app.file;
  yazi_pick = requested r.request app.yazi_pick;
  screen = back_home app.configure r.screen app.screen;
}

abbrev pub configure_on : Configure.Answers → KeyCode → Option ConfigureState → App → App
configure_on co k none app = app
configure_on co k (some st) app =
    configured (Configure.on_key app.config_path app.cfg (record co { stored = app.file }) k st) app

unfoldable pub configure_key : Configure.Answers → KeyCode → App → App
unfolding Configure.on_key
configure_key co k app = configure_on co k app.configure app

abbrev pick_into : Places → ℕ → Option Text → Option ConfigureState → Option ConfigureState
pick_into places field none st = st
pick_into places field (some path) none = none
pick_into places field (some path) (some st) = some (Configure.apply_picked places field path st)

abbrev pub serve : Places → Option Text → Option (ℕ × Text) → App → App
serve places picked none app = app
serve places picked (some (field, start)) app = record app {
  yazi_pick = none;
  configure = pick_into places field picked app.configure;
}

-- The main loop serves a request for a path with what the picker gives.
unfoldable pub serve_pick : Places → Option Text → App → App
unfolding Configure.apply_picked
serve_pick places picked app = serve places picked app.yazi_pick app
