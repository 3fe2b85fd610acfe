-- ===== src/Screen/Main/Settings.antt =====
-- The settings of the application and their file (tui/src/main.rs, tui/src/ui/configure.rs).
use nixnas.Base.{
  ℕ, zero, suc, ◌≡◌, refl, sym, ap, ◌∙◌, Bool, true, false, Option, none, some, Result, ok, if_elim,
  Option-cases, inl, inr, ◌==◌, ◌||◌, ◌&&◌, [], Bool-cases,
}
use nixnas.Base.Text.{Text, codes}
use nixnas.Config.{Config, Stored, load}
use nixnas.Log.Session as Log
use nixnas.Screen.App.{
  App, ScreenName, is_some_and, stored_after, configure_on, configure_key, build_flash_key,
  build_key, flash_key, verify_key, serve,
}
use nixnas.Screen.Configure as Configure
use nixnas.Screen.Configure.{ConfigureState, Outcome}
use nixnas.Screen.Configure.Browse.{Places, Browser}
use nixnas.Screen.Configure.Laws.{Keeps, save_form-Keeps, save_form-untorn}
use nixnas.Screen.Home as Home
use nixnas.Screen.Home.{request_quit, exit_key, Found, verify_image, enter_key, menu_key, has_files}
use nixnas.Screen.Key.{KeyCode, enter, esc, up, down, delete, char, Answers}
use nixnas.Screen.Main.{Outside, dispatch, is_c, on_key}
use nixnas.Screen.Verify as Verify

-- Loading the file again gives the settings in use.
abbrev pub HoldsFile : App → Type 0
HoldsFile app = load app.file ≡ ok app.cfg

-- What an outcome on CONFIGURE makes of settings and of a file that agree.
abbrev Agrees : Stored → Outcome → Type 0
Agrees file r = load (stored_after r.written r.torn file) ≡ ok r.cfg

Keeps-Agrees :
    (old : Config) (file : Stored) (r : Outcome)
    → Keeps old file r
    → r.torn ≡ none
    → load file ≡ ok old
    → Agrees file r
unfolding nixnas.Base.Text.text_eq
Keeps-Agrees old file r keeps whole e = elim (Option-cases r.written) [
  | inl unwritten ↦ rw (unwritten, whole) (e ∙ ap ok (sym (keeps.1 unwritten)))
  | inr (t, written) ↦ rw written (keeps.0 t (codes "theme") written refl).0
]

form_key-Agrees :
    (path : Text) (cfg : Config) (o : Configure.Answers) (k : KeyCode) (st : ConfigureState)
    → o.writes ≡ true
    → load o.stored ≡ ok cfg
    → Agrees o.stored (Configure.form_key path cfg o k st)
unfolding Configure.form_key
form_key-Agrees path cfg o esc st w e = e
form_key-Agrees path cfg o up st w e = e
form_key-Agrees path cfg o down st w e = e
form_key-Agrees path cfg o delete st w e = e
form_key-Agrees path cfg o enter st w e =
    if_elim (Agrees o.stored) (Configure.is_path_kind (Configure.kind st))
      (λ _. if_elim (Agrees o.stored) st.yazi (λ _. e) (λ _. e)) (λ _. e)
form_key-Agrees path cfg o (char c) st w e =
    let P = Agrees o.stored in
    if_elim P (c == b'k') (λ _. e)
      (λ _.
        if_elim P (c == b'j') (λ _. e)
          (λ _.
            if_elim P (c == b'b') (λ _. e)
              (λ _.
                if_elim P (c == b'e') (λ _. e)
                  (λ _.
                    if_elim P (c == b'd') (λ _. e)
                      (λ _.
                        if_elim P (c == b's')
                          (λ _.
                            Keeps-Agrees cfg o.stored (Configure.save_form path cfg o st)
                              (save_form-Keeps path cfg o st) (save_form-untorn path cfg o st w) e)
                          (λ _. e))))))
form_key-Agrees path cfg o _ st w e = e

in_form-Agrees :
    (path : Text) (cfg : Config) (o : Configure.Answers) (k : KeyCode) (edit : Option Text)
    (st : ConfigureState)
    → o.writes ≡ true
    → load o.stored ≡ ok cfg
    → Agrees o.stored (Configure.in_form path cfg o k edit st)
in_form-Agrees path cfg o k none st w e = form_key-Agrees path cfg o k st w e
in_form-Agrees path cfg o k (some buf) st w e = e

configure-Agrees :
    (path : Text) (cfg : Config) (o : Configure.Answers) (k : KeyCode) (b : Option Browser)
    (st : ConfigureState)
    → o.writes ≡ true
    → load o.stored ≡ ok cfg
    → Agrees o.stored (Configure.in_screen path cfg o k b st)
configure-Agrees path cfg o k none st w e = in_form-Agrees path cfg o k st.edit st w e
configure-Agrees path cfg o k (some b) st w e = e

configure_on-HoldsFile :
    (co : Configure.Answers) (k : KeyCode) (c : Option ConfigureState) (app : App)
    → co.writes ≡ true
    → HoldsFile app
    → HoldsFile (configure_on co k c app)
unfolding Configure.on_key
configure_on-HoldsFile co k none app w e = e
configure_on-HoldsFile co k (some st) app w e =
    configure-Agrees app.config_path app.cfg (record co { stored = app.file }) k st.browser st w e

request_quit-HoldsFile : (app : App) → HoldsFile app → HoldsFile (request_quit app)
unfolding request_quit
request_quit-HoldsFile app e = if_elim HoldsFile (has_files app) (λ _. e) (λ _. e)

verify_image-HoldsFile :
    (ans : Log.Answers) (stamp : Text) (found : Found) (app : App)
    → HoldsFile app
    → HoldsFile (verify_image ans stamp found app)
verify_image-HoldsFile ans stamp found app e =
    elim (Bool-cases (is_some_and Verify.is_running app.verify)) [
      | inl runs ↦ rw runs e
      | inr idle ↦ rw idle (elim (Bool-cases (Verify.is_running (Verify.new_image found))) [
        | inl starts ↦ rw starts e
        | inr fails ↦ rw fails e
      ])
    ]

module _ (o : Answers) (ans : Log.Answers) (stamp : Text) (found : Found) where
  enter_key-HoldsFile :
      (n : ℕ) (app : App) → HoldsFile app → HoldsFile (enter_key o ans stamp found n app)
  unfolding enter_key
  enter_key-HoldsFile zero app e = e
  enter_key-HoldsFile (suc zero) app e = e
  enter_key-HoldsFile (suc (suc zero)) app e = e
  enter_key-HoldsFile (suc (suc (suc zero))) app e = e
  enter_key-HoldsFile (suc (suc (suc (suc zero)))) app e =
      verify_image-HoldsFile ans stamp found app e
  enter_key-HoldsFile (suc (suc (suc (suc (suc zero))))) app e = e
  enter_key-HoldsFile (suc (suc (suc (suc (suc (suc n)))))) app e = request_quit-HoldsFile app e

  menu_key-HoldsFile :
      (k : KeyCode) (app : App) → HoldsFile app → HoldsFile (menu_key o ans stamp found k app)
  unfolding menu_key
  menu_key-HoldsFile up app e = e
  menu_key-HoldsFile down app e = e
  menu_key-HoldsFile enter app e = enter_key-HoldsFile app.home.selected app e
  menu_key-HoldsFile (char c) app e =
      if_elim HoldsFile (c == b'k') (λ _. e)
        (λ _.
          if_elim HoldsFile (c == b'j') (λ _. e)
            (λ _. if_elim HoldsFile (c == b'q') (λ _. request_quit-HoldsFile app e) (λ _. e)))
  menu_key-HoldsFile _ app e = e

exit_key-HoldsFile :
    (ans : Log.Answers) (k : KeyCode) (app : App) → HoldsFile app → HoldsFile (exit_key ans k app)
unfolding exit_key
exit_key-HoldsFile ans enter app e = e
exit_key-HoldsFile ans esc app e = e
exit_key-HoldsFile ans (char c) app e =
    if_elim HoldsFile (c == b'c' || c == b'C') (λ _. e)
      (λ _. if_elim HoldsFile (c == b'k' || c == b'K') (λ _. e) (λ _. e))
exit_key-HoldsFile ans _ app e = e

dispatch-HoldsFile :
    (o : Outside) (k : KeyCode) (name : ScreenName) (app : App)
    → o.configuring.writes ≡ true
    → HoldsFile app
    → HoldsFile (dispatch o k name app)
unfolding dispatch Home.on_key build_flash_key build_key flash_key verify_key configure_key
dispatch-HoldsFile o k ScreenName.home app w e =
    if_elim HoldsFile app.home.exit_prompt (λ _. exit_key-HoldsFile o.log k app e)
      (λ _. menu_key-HoldsFile o.answers o.log o.stamp o.found k app e)
dispatch-HoldsFile o k ScreenName.configure app w e =
    configure_on-HoldsFile o.configuring k app.configure app w e
dispatch-HoldsFile o k ScreenName.build_flash app w e = e
dispatch-HoldsFile o k ScreenName.build app w e = e
dispatch-HoldsFile o k ScreenName.flash app w e = e
dispatch-HoldsFile o k ScreenName.verify app w e = e

-- Every key keeps the settings those of the file, where a write succeeds.
pub on_key-HoldsFile :
    (o : Outside) (control : Bool) (k : KeyCode) (app : App)
    → o.configuring.writes ≡ true
    → HoldsFile app
    → HoldsFile (on_key o control k app)
unfolding on_key
on_key-HoldsFile o control k app w e =
    if_elim HoldsFile (control && is_c k) (λ _. e) (λ _. dispatch-HoldsFile o k app.screen app w e)

pub serve-HoldsFile :
    (places : Places) (picked : Option Text) (r : Option (ℕ × Text)) (app : App)
    → HoldsFile app
    → HoldsFile (serve places picked r app)
serve-HoldsFile places picked none app e = e
serve-HoldsFile places picked (some (field, start)) app e = e
