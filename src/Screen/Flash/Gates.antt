-- ===== src/Screen/Flash/Gates.antt =====
-- What holds of the FLASH screen between two keys (tui/src/ui/flash.rs).
use nixnas.Base.{
  ℕ, ◌≡◌, refl, subst, ap, true, List, [], ◌∷◌, ◌++◌, Option, none, some, Result, ok, err, is_some,
  Bool-cases, Option-cases, arith, inl, inr,
}
use nixnas.Base.Text.{Text}
use nixnas.Flash.Disks.{Disk, dev_path}
use nixnas.Flash.Events.{FlashEvent}
use nixnas.Sudo.Command.{Elevation, AuthOutcome, wrong, missing, error, authenticate}
use nixnas.Screen.Key.{KeyCode, esc, enter, Answers, LogCall, Leaves}
use nixnas.Screen.Flash.{
  Phase, devices, summary, backup_ask, confirm, sudo_pass, running, done, Job, FlashScreen,
  selected_disk, image_fits, new, on_key, fits, size_of, grows, arm, refresh_disks, devices_key,
  summary_key, backup_ask_key, store_pass_key, confirm_key, sudo_pass_key, done_key, dispatch,
  authenticated,
}
use nixnas.Screen.Flash.Events.{drain_events, drain_loop, finish_drain}

abbrev pub image_path : Option (Text × ℕ) → Option Text
image_path none = none
image_path (some (p, _)) = some p

abbrev pub path_of : Option Disk → Option Text
path_of none = none
path_of (some d) = some (dev_path d)

-- A device is chosen, the image fits it, and no worker runs.
pub record IsReady (rx : Option Job) (image : Option (Text × ℕ)) (disk : Option Disk) : Type 0 where
  pub idle : rx ≡ none
  pub has_image : is_some image ≡ true
  pub has_disk : is_some disk ≡ true
  pub fitting : fits image (size_of disk) ≡ true

-- A worker runs on the chosen device, with the image that fits it.
pub record IsArmed (rx : Option Job) (image : Option (Text × ℕ)) (disk : Option Disk) : Type 0 where
  pub job : Job
  pub armed : rx ≡ some job
  pub right_image : image_path image ≡ some job.image
  pub right_dev : path_of disk ≡ some job.dev
  pub right_grow : job.grow ≡ grows image (size_of disk)
  pub fitting : fits image (size_of disk) ≡ true

-- What holds of the screen between two keys, by its phase.
abbrev pub SafeIn : Phase → FlashScreen → Type 0
SafeIn devices st = (st.rx ≡ none) × (is_some st.image ≡ true)
SafeIn summary st = (st.rx ≡ none) × (is_some st.image ≡ true) × (is_some (selected_disk st) ≡ true)
SafeIn (done _) st = st.rx ≡ none
SafeIn running st = IsArmed st.rx st.image (selected_disk st)
SafeIn backup_ask st = IsReady st.rx st.image (selected_disk st)
SafeIn (Phase.store_pass _) st = IsReady st.rx st.image (selected_disk st)
SafeIn (confirm _ _) st = IsReady st.rx st.image (selected_disk st)
SafeIn (sudo_pass _ _) st = IsReady st.rx st.image (selected_disk st)

abbrev pub IsSafe : FlashScreen → Type 0
IsSafe st = SafeIn st.phase st

arm-IsSafe :
    (path : Text) (log : Option Text) (elev : Elevation) (st : FlashScreen)
    → IsReady st.rx st.image (selected_disk st)
    → Leaves IsSafe (arm path log elev st)
unfolding arm
arm-IsSafe path log elev st h = elim (Option-cases (selected_disk st)) [
  | inl e ↦ ground arith
  | inr (d, e) ↦ elim (Option-cases st.image) [
    | inl f ↦ ground arith
    | inr ((image, n), f) ↦
        rw (e, arm)
          (rw f record {
            job = _;
            armed = refl;
            right_image = ap image_path f;
            right_dev = ap path_of e;
            right_grow = refl;
            fitting = h.fitting;
          })
  ]
]

devices_key-IsSafe :
    (o : Answers) (k : KeyCode) (st : FlashScreen)
    → st.phase ≡ devices
    → IsSafe st
    → Leaves IsSafe (devices_key o k st)
unfolding devices_key refresh_disks
devices_key-IsSafe o k st p h = ground arith

summary_key-IsSafe :
    (k : KeyCode) (st : FlashScreen)
    → st.phase ≡ summary
    → IsSafe st
    → Leaves IsSafe (summary_key k st)
unfolding summary_key
summary_key-IsSafe enter st p h = elim (Bool-cases (image_fits st)) [
  | inl t ↦
      let (i, m, d) = subst (λ q. SafeIn q st) p h in
      rw (t, summary_key) record { idle = i; has_image = m; has_disk = d; fitting = t }
  | inr t ↦ rw (t, summary_key) h
]
summary_key-IsSafe esc st p h = let (i, m, d) = subst (λ q. SafeIn q st) p h in (i, m)
summary_key-IsSafe _ st p h = h

backup_ask_key-IsSafe :
    (k : KeyCode) (st : FlashScreen)
    → st.phase ≡ backup_ask
    → IsSafe st
    → Leaves IsSafe (backup_ask_key k st)
unfolding backup_ask_key
backup_ask_key-IsSafe k st p h = let r = subst (λ q. SafeIn q st) p h in ground arith

store_pass_key-IsSafe :
    (buf : Text) (k : KeyCode) (st : FlashScreen)
    → st.phase ≡ Phase.store_pass buf
    → IsSafe st
    → Leaves IsSafe (store_pass_key buf k st)
unfolding store_pass_key
store_pass_key-IsSafe buf k st p h = let r = subst (λ q. SafeIn q st) p h in ground arith

confirm_key-IsSafe :
    (path : Text) (o : Answers) (typed : Text) (e : Option Text) (k : KeyCode) (st : FlashScreen)
    → st.phase ≡ confirm typed e
    → IsSafe st
    → Leaves IsSafe (confirm_key path o typed e k st)
unfolding confirm_key
confirm_key-IsSafe path o typed e enter st p h =
    let r = subst (λ q. SafeIn q st) p h in
    let a = arm-IsSafe path o.log_file Elevation.root (record st { phase = confirm [] e }) r in
    ground arith
confirm_key-IsSafe path o typed e k st p h = let r = subst (λ q. SafeIn q st) p h in ground arith

authenticated-IsSafe :
    (path : Text) (o : Answers) (r : AuthOutcome) (st : FlashScreen)
    → IsReady st.rx st.image (selected_disk st)
    → Leaves IsSafe (authenticated path o r st)
authenticated-IsSafe path o (AuthOutcome.ok elev) st h = arm-IsSafe path o.log_file elev st h
authenticated-IsSafe path o wrong st h = h
authenticated-IsSafe path o missing st h = h.idle
authenticated-IsSafe path o (error message) st h = h.idle

sudo_pass_key-IsSafe :
    (path : Text) (o : Answers) (buf : Text) (e : Option Text) (k : KeyCode) (st : FlashScreen)
    → st.phase ≡ sudo_pass buf e
    → IsSafe st
    → Leaves IsSafe (sudo_pass_key path o buf e k st)
unfolding sudo_pass_key
sudo_pass_key-IsSafe path o buf e enter st p h =
    authenticated-IsSafe path o (authenticate o.sudo buf) (record st { phase = sudo_pass [] e })
      (subst (λ q. SafeIn q st) p h)
sudo_pass_key-IsSafe path o buf e k st p h = let r = subst (λ q. SafeIn q st) p h in ground arith

done_key-IsSafe : (k : KeyCode) (st : FlashScreen) → IsSafe st → Leaves IsSafe (done_key k st)
unfolding done_key
done_key-IsSafe k st h = ground arith

dispatch-IsSafe :
    (path : Text) (o : Answers) (p : Phase) (k : KeyCode) (st : FlashScreen)
    → st.phase ≡ p
    → IsSafe st
    → Leaves IsSafe (dispatch path o p k st)
unfolding dispatch
dispatch-IsSafe path o devices k st p h = devices_key-IsSafe o k st p h
dispatch-IsSafe path o summary k st p h = summary_key-IsSafe k st p h
dispatch-IsSafe path o backup_ask k st p h = backup_ask_key-IsSafe k st p h
dispatch-IsSafe path o (Phase.store_pass buf) k st p h = store_pass_key-IsSafe buf k st p h
dispatch-IsSafe path o (confirm typed e) k st p h = confirm_key-IsSafe path o typed e k st p h
dispatch-IsSafe path o (sudo_pass buf e) k st p h = sudo_pass_key-IsSafe path o buf e k st p h
dispatch-IsSafe path o running k st p h = h
dispatch-IsSafe path o (done _) k st p h = done_key-IsSafe k st h

-- Whatever the phase, the key and the answers from outside, a key leaves a safe screen safe: past the
-- summary a device is chosen that the image fits, and a worker runs only in the phase `running`, on the
-- chosen device, with the built image, and growing exactly when the image is the smaller one.
pub on_key-IsSafe :
    (path : Text) (o : Answers) (k : KeyCode) (st : FlashScreen)
    → IsSafe st
    → Leaves IsSafe (on_key path o k st)
unfolding on_key
on_key-IsSafe path o k st h = dispatch-IsSafe path o st.phase k st refl h

SafeIn-gauge :
    (p : Phase) (st : FlashScreen) (title : Text) (n : ℕ × ℕ)
    → SafeIn p st
    → SafeIn p (record st { gauge_title = title; progress = n })
SafeIn-gauge devices st title n h = h
SafeIn-gauge summary st title n h = h
SafeIn-gauge backup_ask st title n h = h
SafeIn-gauge (Phase.store_pass _) st title n h = h
SafeIn-gauge (confirm _ _) st title n h = h
SafeIn-gauge (sudo_pass _ _) st title n h = h
SafeIn-gauge running st title n h = h
SafeIn-gauge (done _) st title n h = h

drain_loop-IsSafe :
    (es : List FlashEvent) (st : FlashScreen) (v : Option (Result Text Text)) (calls : List LogCall)
    → IsSafe st
    → IsSafe (drain_loop es st v calls).0
unfolding drain_loop
drain_loop-IsSafe [] st v calls h = h
drain_loop-IsSafe (FlashEvent.phase t ∷ es) st v calls h =
    drain_loop-IsSafe es (record st { gauge_title = t; progress = (0, 0) }) v
      (calls ++ (LogCall.phase t ∷ [])) (SafeIn-gauge st.phase st t (0, 0) h)
drain_loop-IsSafe (FlashEvent.progress n t ∷ es) st v calls h =
    drain_loop-IsSafe es (record st { progress = (n, t) }) v calls
      (SafeIn-gauge st.phase st st.gauge_title (n, t) h)
drain_loop-IsSafe (FlashEvent.done r ∷ es) st v calls h = drain_loop-IsSafe es st (some r) calls h

finish_drain-IsSafe :
    (r : FlashScreen × Option (Result Text Text) × List LogCall)
    → IsSafe r.0
    → IsSafe (finish_drain r).0
finish_drain-IsSafe (st, none, calls) h = h
finish_drain-IsSafe (st, some (ok _), calls) h = refl
finish_drain-IsSafe (st, some (err _), calls) h = refl

pub drain_events-IsSafe :
    (es : List FlashEvent) (st : FlashScreen) → IsSafe st → IsSafe (drain_events es st).0
unfolding drain_events
drain_events-IsSafe es st h = elim (Bool-cases (is_some st.rx)) [
  | inl t ↦ rw t (finish_drain-IsSafe _ (drain_loop-IsSafe es st none [] h))
  | inr t ↦ rw t h
]

pub new-IsSafe :
    (found : Result Text (Text × ℕ)) (disks : Result Text (List Disk)) → IsSafe (new found disks)
unfolding new refresh_disks
new-IsSafe (ok image) (ok disks) = (refl, refl)
new-IsSafe (ok image) (err _) = (refl, refl)
new-IsSafe (err _) (ok disks) = refl
new-IsSafe (err _) (err _) = refl
