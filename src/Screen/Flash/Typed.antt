-- ===== src/Screen/Flash/Typed.antt =====
-- The gate of the typed device name on the FLASH screen (tui/src/ui/flash.rs).
use nixnas.Base.{
  ◌≡◌, refl, subst, sym, ◌∙◌, ap, ◌⊎◌, inl, inr, Bool, true, false, List, [], ◌∷◌, ◌++◌, Option,
  none, some, Result, ok, err, is_some, Bool-cases, Option-cases, arith,
}
use nixnas.Base.Text.{Text, text_eq, trim, text_eq→eq}
use nixnas.Flash.Disks.{Disk}
use nixnas.Flash.Events.{FlashEvent}
use nixnas.Sudo.Command.{Elevation, AuthOutcome, wrong, missing, error}
use nixnas.Screen.Key.{KeyCode, enter, Answers, LogCall, Leaves}
use nixnas.Screen.Flash.{
  Phase, devices, summary, backup_ask, confirm, sudo_pass, running, done, FlashScreen,
  selected_disk, on_key, arm, authenticated, elevate, refresh_disks, devices_key, summary_key,
  backup_ask_key, store_pass_key, confirm_key, sudo_pass_key, done_key, dispatch,
}
use nixnas.Screen.Flash.Events.{drain_events, drain_loop, finish_drain}

abbrev pub past_gate : Phase → Bool
past_gate running = true
past_gate (sudo_pass _ _) = true
past_gate _ = false

-- The screen asks for the device's name, and what is typed is it.
pub record Confirms (st : FlashScreen) : Type 0 where
  pub typed : Text
  pub message : Option Text
  pub disk : Disk
  pub asking : st.phase ≡ confirm typed message
  pub chosen : selected_disk st ≡ some disk
  pub same : trim typed ≡ disk.name

-- A step from `st` to `s` is past the gate only for the same device, and if `st` was, or confirms.
abbrev pub Gated : FlashScreen → FlashScreen → Type 0
Gated st s =
    (past_gate s.phase ≡ false)
    ⊎ ((selected_disk s ≡ selected_disk st) × ((past_gate st.phase ≡ true) ⊎ Confirms st))

arm-Gated :
    (path : Text) (log : Option Text) (elev : Elevation) (st s : FlashScreen)
    → selected_disk s ≡ selected_disk st
    → ((past_gate st.phase ≡ true) ⊎ Confirms st)
    → Leaves (Gated st) (arm path log elev s)
unfolding arm
arm-Gated path log elev st s same h = ground arith

authenticated-Gated :
    (path : Text) (o : Answers) (r : AuthOutcome) (st s : FlashScreen)
    → selected_disk s ≡ selected_disk st
    → past_gate st.phase ≡ true
    → Leaves (Gated st) (authenticated path o r s)
authenticated-Gated path o (AuthOutcome.ok elev) st s same h =
    arm-Gated path o.log_file elev st s same (inl h)
authenticated-Gated path o wrong st s same h = inr (same, inl h)
authenticated-Gated path o missing st s same h = inl refl
authenticated-Gated path o (error message) st s same h = inl refl

elevate-Gated :
    (path : Text) (o : Answers) (st s : FlashScreen)
    → selected_disk s ≡ selected_disk st
    → Confirms st
    → Leaves (Gated st) (elevate path o s)
elevate-Gated path o st s same h =
    let a = arm-Gated path o.log_file Elevation.root st s same (inr h) in ground arith

confirm_key-Gated :
    (path : Text) (o : Answers) (typed : Text) (e : Option Text) (k : KeyCode) (st : FlashScreen)
    → st.phase ≡ confirm typed e
    → Leaves (Gated st) (confirm_key path o typed e k st)
unfolding confirm_key
confirm_key-Gated path o typed e enter st p = elim (Option-cases (selected_disk st)) [
  | inl n ↦ rw (n, confirm_key) (inl refl)
  | inr (d, c) ↦ elim (Bool-cases (text_eq (trim typed) d.name)) [
    | inl t ↦
        rw (c, confirm_key)
          (rw (t) (
            elevate-Gated path o st (record st { phase = confirm [] e }) refl
              (record {
                typed = typed;
                message = e;
                disk = d;
                asking = p;
                chosen = c;
                same = text_eq→eq _ _ t;
              })))
    | inr t ↦ rw (c, confirm_key) (rw t (inl refl))
  ]
]
confirm_key-Gated path o typed e k st p = ground arith

sudo_pass_key-Gated :
    (path : Text) (o : Answers) (buf : Text) (e : Option Text) (k : KeyCode) (st : FlashScreen)
    → st.phase ≡ sudo_pass buf e
    → Leaves (Gated st) (sudo_pass_key path o buf e k st)
unfolding sudo_pass_key
sudo_pass_key-Gated path o buf e enter st p =
    authenticated-Gated path o _ st (record st { phase = sudo_pass [] e }) refl
      (subst (λ q. past_gate q ≡ true) (sym p) refl)
sudo_pass_key-Gated path o buf e k st p =
    let h = (subst (λ q. past_gate q ≡ true) (sym p) refl) in ground arith

dispatch-Gated :
    (path : Text) (o : Answers) (p : Phase) (k : KeyCode) (st : FlashScreen)
    → st.phase ≡ p
    → Leaves (Gated st) (dispatch path o p k st)
unfolding dispatch devices_key summary_key backup_ask_key store_pass_key done_key refresh_disks
dispatch-Gated path o devices k st p = ground arith
dispatch-Gated path o summary k st p = ground arith
dispatch-Gated path o backup_ask k st p = ground arith
dispatch-Gated path o (Phase.store_pass buf) k st p = ground arith
dispatch-Gated path o (confirm typed e) k st p = confirm_key-Gated path o typed e k st p
dispatch-Gated path o (sudo_pass buf e) k st p = sudo_pass_key-Gated path o buf e k st p
dispatch-Gated path o running k st p =
    inr (refl, inl (subst (λ q. past_gate q ≡ true) (sym p) refl))
dispatch-Gated path o (done _) k st p = ground arith

pub on_key-Gated :
    (path : Text) (o : Answers) (k : KeyCode) (st : FlashScreen)
    → Leaves (Gated st) (on_key path o k st)
unfolding on_key
on_key-Gated path o k st = dispatch-Gated path o st.phase k st refl

drain_loop-keeps :
    (es : List FlashEvent) (st : FlashScreen) (v : Option (Result Text Text)) (calls : List LogCall)
    → let s = (drain_loop es st v calls).0 in
      (selected_disk s ≡ selected_disk st) × (s.phase ≡ st.phase)
unfolding drain_loop
drain_loop-keeps [] st v calls = (refl, refl)
drain_loop-keeps (FlashEvent.phase t ∷ es) st v calls =
    drain_loop-keeps es (record st { gauge_title = t; progress = (0, 0) }) v
      (calls ++ (LogCall.phase t ∷ []))
drain_loop-keeps (FlashEvent.progress n t ∷ es) st v calls =
    drain_loop-keeps es (record st { progress = (n, t) }) v calls
drain_loop-keeps (FlashEvent.done r ∷ es) st v calls = drain_loop-keeps es st (some r) calls

finish_drain-Gated :
    (r : FlashScreen × Option (Result Text Text) × List LogCall) (st : FlashScreen)
    → (selected_disk r.0 ≡ selected_disk st)
    → ((r.0).phase ≡ st.phase)
    → Gated st (finish_drain r).0
finish_drain-Gated (s, none, calls) st d p = elim (Bool-cases (past_gate st.phase)) [
  | inl t ↦ inr (d, inl t)
  | inr t ↦ inl (ap past_gate p ∙ t)
]
finish_drain-Gated (s, some (ok _), calls) st d p = inl refl
finish_drain-Gated (s, some (err _), calls) st d p = inl refl

pub drain_events-Gated : (es : List FlashEvent) (st : FlashScreen) → Gated st (drain_events es st).0
unfolding drain_events
drain_events-Gated es st = elim (Bool-cases (is_some st.rx)) [
  | inl t ↦
      let (d, p) = drain_loop-keeps es st none [] in
      rw (t, drain_events) (finish_drain-Gated (drain_loop es st none []) st d p)
  | inr t ↦ rw (t, drain_events) (finish_drain-Gated (st, none, []) st refl refl)
]
