-- ===== src/Screen/BuildFlash/Keys/Safe.antt =====
-- The keys of the BUILD & FLASH screen, one phase at a time (tui/src/ui/buildflash.rs).
use nixnas.Base.{
  ℕ, ◌≡◌, refl, subst, ◌≤◌, true, [], Option, ok, is_some, Bool-cases, Option-cases, arith, inl,
  inr,
}
use nixnas.Base.Text.{Text}
use nixnas.Build.Target.{check_target_bytes, min_image_bytes}
use nixnas.Config.{Config}
use nixnas.Sudo.Command.{Elevation, AuthOutcome, wrong, missing, error, authenticate}
use nixnas.Screen.Key.{KeyCode, enter, Answers, Leaves}
use nixnas.Screen.BuildFlash.{
  Stage, unavailable, pick_device, pass_first, pass_confirm, building, flash_review,
  flash_backup_ask, flash_confirm, flash_sudo, flashing, done, BuildFlowScreen, refresh_disks,
  selected_disk, image_fits, arm_flash,
}
use nixnas.Screen.BuildFlash.Keys.{
  on_key, dispatch, leave_key, pick_device_key, pick, pass_first_key, pass_confirm_key,
  building_key, review_key, backup_ask_key, confirm_key, authenticated, sudo_key,
}
use nixnas.Screen.BuildFlash.Gates.{Idle, BigEnough, Fits, SafeIn, IsSafe}

check_target_bytes_lem :
    (human_size : ℕ → Text) (bytes : ℕ)
    → check_target_bytes human_size bytes ≡ ok tt
    → min_image_bytes ≤ bytes
unfolding check_target_bytes
check_target_bytes_lem human_size bytes e = ground arith

pick-IsSafe :
    (o : Answers) (name : Text) (st : BuildFlowScreen)
    → st.stage ≡ pick_device
    → Idle st
    → Leaves IsSafe (pick o name st)
unfolding pick check_target_bytes
pick-IsSafe o name st p h = ground arith

image_fits-Fits :
    (st : BuildFlowScreen)
    → image_fits st ≡ true
    → BigEnough st.picked
    → is_some st.built ≡ true
    → Fits st.built st.picked
image_fits-Fits st f b i = ground arith

arm_flash-IsSafe :
    (path : Text) (log : Option Text) (elev : Elevation) (st : BuildFlowScreen)
    → Idle st
    → BigEnough st.picked
    → Fits st.built st.picked
    → Leaves IsSafe (arm_flash path log elev st)
unfolding arm_flash
arm_flash-IsSafe path log elev st h b f = ground arith

pass_confirm_key-IsSafe :
    (path : Text) (cfg : Config) (o : Answers) (first buf : Text) (k : KeyCode)
    (st : BuildFlowScreen)
    → st.stage ≡ pass_confirm first buf
    → IsSafe st
    → Leaves IsSafe (pass_confirm_key path cfg o first buf k st)
unfolding pass_confirm_key
pass_confirm_key-IsSafe path cfg o first buf k st p h =
    let r = subst (λ q. SafeIn q st) p h in ground arith

review_key-IsSafe :
    (k : KeyCode) (st : BuildFlowScreen)
    → st.stage ≡ flash_review
    → IsSafe st
    → Leaves IsSafe (review_key k st)
unfolding review_key
review_key-IsSafe enter st p h =
    let (i, b, f) = subst (λ q. SafeIn q st) p h in
    elim (Bool-cases (image_fits st)) [
      | inl t ↦ rw (t, review_key) (i, b, image_fits-Fits st t b f)
      | inr t ↦ rw (t, review_key) h
    ]
review_key-IsSafe k st p h = ground arith

authenticated-IsSafe :
    (path : Text) (o : Answers) (r : AuthOutcome) (st : BuildFlowScreen) (buf : Text)
    (e : Option Text)
    → st.stage ≡ flash_sudo buf e
    → IsSafe st
    → Leaves IsSafe (authenticated path o r st)
authenticated-IsSafe path o (AuthOutcome.ok elev) st buf e p h =
    let (i, b, f) = subst (λ q. SafeIn q st) p h in arm_flash-IsSafe path o.log_file elev st i b f
authenticated-IsSafe path o wrong st buf e p h = subst (λ q. SafeIn q st) p h
authenticated-IsSafe path o missing st buf e p h = (subst (λ q. SafeIn q st) p h).0
authenticated-IsSafe path o (error message) st buf e p h = (subst (λ q. SafeIn q st) p h).0

sudo_key-IsSafe :
    (path : Text) (o : Answers) (buf : Text) (e : Option Text) (k : KeyCode) (st : BuildFlowScreen)
    → st.stage ≡ flash_sudo buf e
    → IsSafe st
    → Leaves IsSafe (sudo_key path o buf e k st)
unfolding sudo_key
sudo_key-IsSafe path o buf e enter st p h =
    authenticated-IsSafe path o (authenticate o.sudo buf) (record st { stage = flash_sudo [] e }) []
      e refl (subst (λ q. SafeIn q st) p h)
sudo_key-IsSafe path o buf e k st p h = let r = subst (λ q. SafeIn q st) p h in ground arith

confirm_key-IsSafe :
    (path : Text) (o : Answers) (typed : Text) (e : Option Text) (k : KeyCode)
    (st : BuildFlowScreen)
    → st.stage ≡ flash_confirm typed e
    → IsSafe st
    → Leaves IsSafe (confirm_key path o typed e k st)
unfolding confirm_key
confirm_key-IsSafe path o typed e enter st p h =
    let (i, b, f) = subst (λ q. SafeIn q st) p h in
    let a =
      arm_flash-IsSafe path o.log_file Elevation.root (record st { stage = flash_confirm [] e }) i b
        f in
    ground arith
confirm_key-IsSafe path o typed e k st p h = let r = subst (λ q. SafeIn q st) p h in ground arith

dispatch-IsSafe :
    (path : Text) (cfg : Config) (o : Answers) (p : Stage) (k : KeyCode) (st : BuildFlowScreen)
    → st.stage ≡ p
    → IsSafe st
    → Leaves IsSafe (dispatch path cfg o p k st)
unfolding dispatch leave_key pick_device_key pass_first_key building_key backup_ask_key
    refresh_disks
dispatch-IsSafe path cfg o unavailable k st p h = ground arith
dispatch-IsSafe path cfg o pick_device enter st p h =
    let r = subst (λ q. SafeIn q st) p h in
    elim (Option-cases (selected_disk st)) [
      | inl n ↦ rw (n, pick_device_key) h
      | inr (d, c) ↦ rw (c, pick_device_key) (pick-IsSafe o d.name st p r)
    ]
dispatch-IsSafe path cfg o pick_device k st p h =
    let r = subst (λ q. SafeIn q st) p h in ground arith
dispatch-IsSafe path cfg o (pass_first buf e) k st p h =
    let r = subst (λ q. SafeIn q st) p h in ground arith
dispatch-IsSafe path cfg o (pass_confirm first buf) k st p h =
    pass_confirm_key-IsSafe path cfg o first buf k st p h
dispatch-IsSafe path cfg o building k st p h = let r = subst (λ q. SafeIn q st) p h in ground arith
dispatch-IsSafe path cfg o flash_review k st p h = review_key-IsSafe k st p h
dispatch-IsSafe path cfg o flash_backup_ask k st p h =
    let r = subst (λ q. SafeIn q st) p h in ground arith
dispatch-IsSafe path cfg o (flash_confirm typed e) k st p h =
    confirm_key-IsSafe path o typed e k st p h
dispatch-IsSafe path cfg o (flash_sudo buf e) k st p h = sudo_key-IsSafe path o buf e k st p h
dispatch-IsSafe path cfg o flashing k st p h = h
dispatch-IsSafe path cfg o (done _) k st p h = ground arith

-- Whatever the stage, the key and the answers from outside, a key leaves a safe screen safe: from the
-- passphrase on, the picked device has at least the least size of an image; a build is for exactly the
-- size of the picked device; past the review, the built image fits it; and a flash writes the built image
-- to the picked device, without a grow.
pub on_key-IsSafe_turnkey :
    (path : Text) (cfg : Config) (o : Answers) (k : KeyCode) (st : BuildFlowScreen)
    → IsSafe st
    → Leaves IsSafe (on_key path cfg o k st)
unfolding on_key
on_key-IsSafe_turnkey path cfg o k st h = dispatch-IsSafe path cfg o st.stage k st refl h
