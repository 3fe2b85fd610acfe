-- ===== src/Screen/Main/Logs.antt =====
-- The session log along the frames and the keys of the application (tui/src/main.rs).
use nixnas.Base.{
  ℕ, zero, suc, ◌≡◌, refl, true, false, List, [], ◌∷◌, Option, none, some, if_elim, Bool-cases, inl,
  inr, ◌==◌, ◌||◌,
}
use nixnas.Base.Text.{Text, codes}
use nixnas.Log.Session as Log
use nixnas.Log.Session.{Disk, Session}
use nixnas.Log.Session.Laws.{Logged, began, wrote, ended, flushed, clean-restores}
use nixnas.Screen.App.{
  App, ScreenName, is_some_and, Sent, tee_one, tee, drained, drain_all, replied, press_on,
  build_flash_key, build_key, flash_key, verify_key, configure_on, configure_key, serve,
}
use nixnas.Screen.Home as Home
use nixnas.Screen.Home.{request_quit, exit_key, Found, verify_image, enter_key, menu_key, has_files}
use nixnas.Screen.Main.{Outside, dispatch}
use nixnas.Screen.Configure as Configure
use nixnas.Screen.Configure.Browse.{Places}
use nixnas.Screen.Key.{KeyCode, enter, esc, up, down, char, Answers, Reply, stay, begin, LogCall}
use nixnas.Screen.Build as Build
use nixnas.Screen.BuildFlash.Events as BuildFlashEvents
use nixnas.Screen.BuildFlash.Keys as BuildFlashKeys
use nixnas.Screen.Flash as Flash
use nixnas.Screen.Flash.Events as FlashEvents
use nixnas.Screen.Verify as Verify
use nixnas.Screen.Verify.Events as VerifyEvents
use nixnas.Screen.Verify.Keys as VerifyKeys

tee_one-Logged :
    {before : Disk} (ans : Log.Answers) (c : LogCall) {q : Session}
    → Logged before q
    → Logged before (tee_one ans c q)
tee_one-Logged ans (LogCall.step name s) past = wrote ans _ past
tee_one-Logged ans (LogCall.line l) past = wrote ans _ past
tee_one-Logged ans (LogCall.phase title) past = wrote ans _ past
tee_one-Logged ans (LogCall.done good msg) past = ended ans good msg past

tee-Logged :
    {before : Disk} (ans : Log.Answers) (cs : List LogCall) {q : Session}
    → Logged before q
    → Logged before (tee ans cs q)
unfolding tee
tee-Logged ans [] past = past
tee-Logged ans (c ∷ cs) past = tee-Logged ans cs (tee_one-Logged ans c past)

drained-Logged :
    {S : Type 0} {before : Disk} (ans : Log.Answers) (drain : S → S × List LogCall) (o : Option S)
    {q : Session}
    → Logged before q
    → Logged before (drained ans drain o q).1
drained-Logged ans drain none past = past
drained-Logged ans drain (some s) past = tee-Logged ans (drain s).1 past

pub drain_all-Logged :
    {before : Disk} (o : Answers) (ans : Log.Answers) (sent : Sent) (app : App)
    → Logged before app.session
    → Logged before (drain_all o ans sent app).session
unfolding drain_all
drain_all-Logged o ans sent app past = flushed (
    drained-Logged ans (VerifyEvents.drain_events sent.verify) app.verify (
      drained-Logged ans (FlashEvents.drain_events sent.flash) app.flash (
        drained-Logged ans (Build.drain_events sent.build) app.build (
          drained-Logged ans
            (BuildFlashEvents.drain_events o.file_size o.human_size sent.built sent.flashed)
            app.buildflash past))))

replied-Logged :
    {S : Type 0} {before : Disk} (ans : Log.Answers) (stamp : Text) (f : Option Text → Reply S)
    (r : Reply S) {q : Session}
    → Logged before q
    → Logged before (replied ans stamp f r q).1
replied-Logged ans stamp f (stay s) past = past
replied-Logged ans stamp f Reply.home past = past
replied-Logged ans stamp f (begin action s) past = began ans action stamp past

press_on-Logged :
    {S : Type 0} {before : Disk} (ans : Log.Answers) (stamp : Text) (f : Option Text → S → Reply S)
    (o : Option S) {q : Session}
    → Logged before q
    → Logged before (press_on ans stamp f o q).1
press_on-Logged ans stamp f none past = past
press_on-Logged ans stamp f (some s) past =
    replied-Logged ans stamp (λ file. f file s) (f none s) past

-- An application that goes on after a key on HOME has not touched the session's files.
abbrev pub GoesOn : Disk → App → Type 0
GoesOn before app = app.quit ≡ false → Logged before app.session

request_quit-GoesOn :
    {before : Disk} (app : App) → Logged before app.session → GoesOn before (request_quit app)
unfolding request_quit
request_quit-GoesOn {before} app past =
    if_elim (GoesOn before) (has_files app) (λ _ e. past) (λ _ e. past)

verify_image-GoesOn :
    {before : Disk} (ans : Log.Answers) (stamp : Text) (found : Found) (app : App)
    → Logged before app.session
    → Logged before (verify_image ans stamp found app).session
verify_image-GoesOn ans stamp found app past =
    elim (Bool-cases (is_some_and Verify.is_running app.verify)) [
      | inl runs ↦ rw runs past
      | inr idle ↦ rw idle (elim (Bool-cases (Verify.is_running (Verify.new_image found))) [
        | inl starts ↦ rw starts (began ans (codes "verify-image") stamp past)
        | inr fails ↦ rw fails past
      ])
    ]

module _ (o : Answers) (ans : Log.Answers) (stamp : Text) (found : Found) where
  enter_key-GoesOn :
      {before : Disk} (n : ℕ) (app : App)
      → Logged before app.session
      → GoesOn before (enter_key o ans stamp found n app)
  unfolding enter_key
  enter_key-GoesOn zero app past e = past
  enter_key-GoesOn (suc zero) app past e = past
  enter_key-GoesOn (suc (suc zero)) app past e = past
  enter_key-GoesOn (suc (suc (suc zero))) app past e = past
  enter_key-GoesOn (suc (suc (suc (suc zero)))) app past e =
      verify_image-GoesOn ans stamp found app past
  enter_key-GoesOn (suc (suc (suc (suc (suc zero))))) app past e = past
  enter_key-GoesOn (suc (suc (suc (suc (suc (suc n)))))) app past e = request_quit-GoesOn app past e

  menu_key-GoesOn :
      {before : Disk} (k : KeyCode) (app : App)
      → Logged before app.session
      → GoesOn before (menu_key o ans stamp found k app)
  unfolding menu_key
  menu_key-GoesOn up app past = λ e. past
  menu_key-GoesOn down app past = λ e. past
  menu_key-GoesOn enter app past = enter_key-GoesOn app.home.selected app past
  menu_key-GoesOn {before} (char c) app past =
      if_elim (GoesOn before) (c == b'k') (λ _ e. past)
        (λ _.
          if_elim (GoesOn before) (c == b'j') (λ _ e. past)
            (λ _.
              if_elim (GoesOn before) (c == b'q') (λ _. request_quit-GoesOn app past)
                (λ _ e. past)))
  menu_key-GoesOn _ app past = λ e. past

exit_key-GoesOn :
    {before : Disk} (ans : Log.Answers) (k : KeyCode) (app : App)
    → Logged before app.session
    → GoesOn before (exit_key ans k app)
unfolding exit_key
exit_key-GoesOn ans enter app past = λ e. cc e
exit_key-GoesOn ans esc app past = λ e. cc e
exit_key-GoesOn {before} ans (char c) app past =
    if_elim (GoesOn before) (c == b'c' || c == b'C') (λ _ e. cc e)
      (λ _. if_elim (GoesOn before) (c == b'k' || c == b'K') (λ _ e. cc e) (λ _ e. past))
exit_key-GoesOn ans _ app past = λ e. past

home_key-GoesOn :
    {before : Disk} (o : Answers) (ans : Log.Answers) (stamp : Text) (found : Found) (k : KeyCode)
    (app : App)
    → Logged before app.session
    → GoesOn before (Home.on_key o ans stamp found k app)
unfolding Home.on_key
home_key-GoesOn {before} o ans stamp found k app past =
    if_elim (GoesOn before) app.home.exit_prompt (λ _. exit_key-GoesOn ans k app past)
      (λ _. menu_key-GoesOn o ans stamp found k app past)

pub asked_home :
    {before : Disk} (o : Answers) (ans : Log.Answers) (stamp : Text) (found : Found) (app : App)
    → Logged before app.session
    → app.home.exit_prompt ≡ true
    → ((p : Text) → ans.stuck p ≡ false)
    → let a = Home.on_key o ans stamp found enter app in (a.quit ≡ true) × (a.session.disk ≡ before)
unfolding Home.on_key exit_key
asked_home {before} o ans stamp found app past asked free =
    if_elim (λ (a : App). (a.quit ≡ true) × (a.session.disk ≡ before)) app.home.exit_prompt
      (λ _. (refl, clean-restores ans past free)) (λ e. cc (e, asked))

configure_on-GoesOn :
    {before : Disk} (co : Configure.Answers) (k : KeyCode) (c : Option Configure.ConfigureState)
    (app : App)
    → Logged before app.session
    → Logged before (configure_on co k c app).session
configure_on-GoesOn co k none app past = past
configure_on-GoesOn co k (some st) app past = past

pub dispatch-GoesOn :
    {before : Disk} (o : Outside) (k : KeyCode) (name : ScreenName) (app : App)
    → Logged before app.session
    → GoesOn before (dispatch o k name app)
unfolding dispatch build_flash_key build_key flash_key verify_key configure_key
dispatch-GoesOn o k ScreenName.home app past =
    home_key-GoesOn o.answers o.log o.stamp o.found k app past
dispatch-GoesOn o k ScreenName.configure app past =
    λ e. configure_on-GoesOn o.configuring k app.configure app past
dispatch-GoesOn o k ScreenName.build_flash app past = λ e.
    press_on-Logged o.log o.stamp
      (λ file.
        BuildFlashKeys.on_key app.config_path app.cfg (record o.answers { log_file = file }) k)
      app.buildflash past
dispatch-GoesOn o k ScreenName.build app past = λ e.
    press_on-Logged o.log o.stamp (λ file. Build.on_key (record o.answers { log_file = file }) k)
      app.build past
dispatch-GoesOn o k ScreenName.flash app past = λ e.
    press_on-Logged o.log o.stamp
      (λ file. Flash.on_key app.config_path (record o.answers { log_file = file }) k) app.flash past
dispatch-GoesOn o k ScreenName.verify app past = λ e.
    press_on-Logged o.log o.stamp
      (λ file. VerifyKeys.on_key (record o.answers { log_file = file }) k) app.verify past

pub serve-Logged :
    {before : Disk} (places : Places) (picked : Option Text) (r : Option (ℕ × Text)) (app : App)
    → Logged before app.session
    → Logged before (serve places picked r app).session
serve-Logged places picked none app past = past
serve-Logged places picked (some (field, start)) app past = past
