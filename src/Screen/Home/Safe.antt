-- ===== src/Screen/Home/Safe.antt =====
-- The keys of HOME and the screens whose workers run (tui/src/ui/home.rs).
use nixnas.Base.{
  ℕ, zero, suc, ◌≡◌, refl, inl, inr, Bool, true, ◌||◌, ◌==◌, Option, Bool-cases, if_elim,
}
use nixnas.Base.Text.{Text}
use nixnas.Log.Session as Log
use nixnas.Screen.App.{App, is_some_and}
use nixnas.Screen.Build as Build
use nixnas.Screen.BuildFlash as BuildFlash
use nixnas.Screen.Flash as Flash
use nixnas.Screen.Key.{KeyCode, enter, esc, up, down, char, Answers}
use nixnas.Screen.Verify as Verify
use nixnas.Screen.Home.{
  has_files, request_quit, exit_key, unless_running, Found, verify_image, enter_key, menu_key,
  on_key,
}

-- A worker that runs keeps its screen.
abbrev pub Spares : {S : Type 0} → (S → Bool) → Option S → Option S → Type 0
Spares is_running old fresh = is_some_and is_running old ≡ true → fresh ≡ old

-- The same for all screens.
pub record IsSpared (app app' : App) : Type 0 where
  pub buildflash : Spares BuildFlash.is_running app.buildflash app'.buildflash
  pub build : Spares Build.is_running app.build app'.build
  pub flash : Spares Flash.is_running app.flash app'.flash
  pub verify : Spares Verify.is_running app.verify app'.verify

unless_running-Spares :
    {S : Type 0} (is_running : S → Bool) (old : Option S) (fresh : S)
    → Spares is_running old (unless_running is_running old fresh)
unless_running-Spares is_running old fresh e = rw e refl

-- What keeps all screens as they are.
alike :
    (app app' : App)
    → app'.buildflash ≡ app.buildflash
    → app'.build ≡ app.build
    → app'.flash ≡ app.flash
    → app'.verify ≡ app.verify
    → IsSpared app app'
alike app app' a b c d = record {
  buildflash = λ e. a;
  build = λ e. b;
  flash = λ e. c;
  verify = λ e. d;
}

request_quit-IsSpared : (app : App) → IsSpared app (request_quit app)
unfolding request_quit
request_quit-IsSpared app = elim (Bool-cases (has_files app)) [
  | inl has ↦ rw has (alike _ _ refl refl refl refl)
  | inr has_none ↦ rw has_none (alike _ _ refl refl refl refl)
]

verify_image-IsSpared :
    (ans : Log.Answers) (stamp : Text) (found : Found) (app : App)
    → IsSpared app (verify_image ans stamp found app)
verify_image-IsSpared ans stamp found app =
    elim (Bool-cases (is_some_and Verify.is_running app.verify)) [
      | inl runs ↦ rw runs (alike _ _ refl refl refl refl)
      | inr idle ↦ rw idle (elim (Bool-cases (Verify.is_running (Verify.new_image found))) [
        | inl starts ↦ rw starts (record {
          buildflash = λ e. refl;
          build = λ e. refl;
          flash = λ e. refl;
          verify = λ e. cc (e, idle);
        })
        | inr fails ↦ rw fails (record {
          buildflash = λ e. refl;
          build = λ e. refl;
          flash = λ e. refl;
          verify = λ e. cc (e, idle);
        })
      ])
    ]

module _ (o : Answers) (ans : Log.Answers) (stamp : Text) (found : Found) where
  enter_key-IsSpared : (n : ℕ) (app : App) → IsSpared app (enter_key o ans stamp found n app)
  unfolding enter_key
  enter_key-IsSpared zero app = alike _ _ refl refl refl refl
  enter_key-IsSpared (suc zero) app = record {
    buildflash = unless_running-Spares BuildFlash.is_running app.buildflash _;
    build = λ e. refl;
    flash = λ e. refl;
    verify = λ e. refl;
  }
  enter_key-IsSpared (suc (suc zero)) app = record {
    build = unless_running-Spares Build.is_running app.build _;
    buildflash = λ e. refl;
    flash = λ e. refl;
    verify = λ e. refl;
  }
  enter_key-IsSpared (suc (suc (suc zero))) app = record {
    flash = unless_running-Spares Flash.is_running app.flash _;
    buildflash = λ e. refl;
    build = λ e. refl;
    verify = λ e. refl;
  }
  enter_key-IsSpared (suc (suc (suc (suc zero)))) app =
      let h = verify_image-IsSpared ans stamp found app in
      record { buildflash = h.buildflash; build = h.build; flash = h.flash; verify = h.verify }
  enter_key-IsSpared (suc (suc (suc (suc (suc zero))))) app = record {
    verify = unless_running-Spares Verify.is_running app.verify _;
    buildflash = λ e. refl;
    build = λ e. refl;
    flash = λ e. refl;
  }
  enter_key-IsSpared (suc (suc (suc (suc (suc (suc n)))))) app = request_quit-IsSpared app

  char_key-IsSpared : (c : ℕ) (app : App) → IsSpared app (menu_key o ans stamp found (char c) app)
  unfolding menu_key
  char_key-IsSpared c app = elim (Bool-cases (c == b'k')) [
    | inl k ↦ rw k (alike _ _ refl refl refl refl)
    | inr not_k ↦ rw not_k (elim (Bool-cases (c == b'j')) [
      | inl j ↦ rw j (alike _ _ refl refl refl refl)
      | inr not_j ↦ rw not_j (elim (Bool-cases (c == b'q')) [
        | inl q ↦ rw q (request_quit-IsSpared app)
        | inr not_q ↦ rw not_q (alike _ _ refl refl refl refl)
      ])
    ])
  ]

  menu_key-IsSpared : (k : KeyCode) (app : App) → IsSpared app (menu_key o ans stamp found k app)
  unfolding menu_key
  menu_key-IsSpared up app = alike _ _ refl refl refl refl
  menu_key-IsSpared down app = alike _ _ refl refl refl refl
  menu_key-IsSpared enter app = enter_key-IsSpared app.home.selected app
  menu_key-IsSpared (char c) app = char_key-IsSpared c app
  menu_key-IsSpared _ app = alike _ _ refl refl refl refl

exit_char-IsSpared :
    (ans : Log.Answers) (c : ℕ) (app : App) → IsSpared app (exit_key ans (char c) app)
unfolding exit_key
exit_char-IsSpared ans c app = elim (Bool-cases (c == b'c' || c == b'C')) [
  | inl clean ↦ rw clean (alike _ _ refl refl refl refl)
  | inr no_clean ↦ rw no_clean (elim (Bool-cases (c == b'k' || c == b'K')) [
    | inl keep ↦ rw keep (alike _ _ refl refl refl refl)
    | inr no_keep ↦ rw no_keep (alike _ _ refl refl refl refl)
  ])
]

exit_key-IsSpared :
    (ans : Log.Answers) (k : KeyCode) (app : App) → IsSpared app (exit_key ans k app)
unfolding exit_key
exit_key-IsSpared ans enter app = alike _ _ refl refl refl refl
exit_key-IsSpared ans esc app = alike _ _ refl refl refl refl
exit_key-IsSpared ans (char c) app = exit_char-IsSpared ans c app
exit_key-IsSpared ans _ app = alike _ _ refl refl refl refl

-- No key on HOME touches a screen whose worker runs: such a screen is afterwards just as it was before,
-- whichever entry of the menu is chosen.
pub on_key-IsSpared :
    (o : Answers) (ans : Log.Answers) (stamp : Text) (found : Found) (k : KeyCode) (app : App)
    → IsSpared app (on_key o ans stamp found k app)
unfolding on_key
on_key-IsSpared o ans stamp found k app =
    if_elim (IsSpared app) app.home.exit_prompt (λ _. exit_key-IsSpared ans k app)
      (λ _. menu_key-IsSpared o ans stamp found k app)
