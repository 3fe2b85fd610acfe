-- ===== src/Screen/Verify/Keys/Safe.antt =====
-- The keys of the VERIFY screen, one phase at a time (tui/src/ui/verify.rs).
use nixnas.Base.{
  ℕ, ◌+◌, ◌-◌, ◌≡◌, refl, subst, ap, Bool, true, false, ◌==◌, [], Option, none, some, Bool-cases,
  Option-cases, inl, inr, arith,
}
use nixnas.Base.Text.{Text}
use nixnas.Flash.Disks.{dev_path}
use nixnas.Sudo.Command.{
  Elevation, Preflight, needs_sudo, no_sudo, preflight, AuthOutcome, wrong, missing, error,
  authenticate,
}
use nixnas.Screen.Key.{
  KeyCode, esc, up, down, page_up, page_down, end, enter, char, Answers, Reply, Leaves,
}
use nixnas.Screen.Verify.{
  VerifyMode, install, Phase, devices, running, sudo_pass, done, VerifyScreen, refresh_disks,
  selected_disk, arm_install,
}
use nixnas.Screen.Verify.Gates.{path_of, SafeIn, IsSafe}
use nixnas.Screen.Verify.Keys.{
  dispatch, devices_key, elevate, arm_pending, authenticated, sudo_pass_key, scroll_key, skipping,
  running_key, done_key, on_key,
}

arm_install-IsSafe :
    (log : Option Text) (dev : Text) (elev : Elevation) (st : VerifyScreen)
    → st.mode ≡ install
    → path_of (selected_disk st) ≡ some dev
    → Leaves IsSafe (arm_install log dev elev st)
unfolding arm_install
arm_install-IsSafe log dev elev st m d = rw m (d, refl)

elevate-IsSafe :
    (o : Answers) (dev : Text) (st : VerifyScreen)
    → st.rx ≡ none
    → st.mode ≡ install
    → path_of (selected_disk st) ≡ some dev
    → Leaves IsSafe (elevate o dev st)
elevate-IsSafe o dev st i m d =
    let a = arm_install-IsSafe o.log_file dev Elevation.root st m d in
    elim (preflight o.is_root o.sudo_on_path)
      as (λ r. Leaves IsSafe (elim r [
        | Preflight.root ↦ arm_install o.log_file dev Elevation.root st
        | needs_sudo ↦ Reply.stay (record st { pending_dev = some dev; phase = sudo_pass [] none })
        | no_sudo ↦ arm_install o.log_file dev Elevation.root st
      ])) [ Preflight.root ↦ a | needs_sudo ↦ (i, m, (dev, refl, d)) | no_sudo ↦ a ]

arm_pending-IsSafe :
    (log : Option Text) (elev : Elevation) (st : VerifyScreen) (buf : Text) (e : Option Text)
    → st.phase ≡ sudo_pass buf e
    → SafeIn (sudo_pass buf e) st
    → Leaves IsSafe (arm_pending log elev st.pending_dev st)
unfolding arm_install
arm_pending-IsSafe log elev st buf e p (i, m, (dev, pending, d)) =
    rw (pending, arm_pending) (arm_install-IsSafe log dev elev st m d)

authenticated-IsSafe :
    (o : Answers) (r : AuthOutcome) (st : VerifyScreen) (buf : Text) (e : Option Text)
    → st.phase ≡ sudo_pass buf e
    → SafeIn (sudo_pass buf e) st
    → Leaves IsSafe (authenticated o r st)
authenticated-IsSafe o (AuthOutcome.ok elev) st buf e p h =
    arm_pending-IsSafe o.log_file elev st buf e p h
authenticated-IsSafe o wrong st buf e p h = h
authenticated-IsSafe o missing st buf e p h =
    arm_pending-IsSafe o.log_file Elevation.root st buf e p h
authenticated-IsSafe o (error message) st buf e p h = h.0

devices_key-IsSafe :
    (o : Answers) (k : KeyCode) (st : VerifyScreen)
    → st.phase ≡ devices
    → IsSafe st
    → Leaves IsSafe (devices_key o k st)
unfolding devices_key refresh_disks
devices_key-IsSafe o enter st p h =
    let (i, m) = subst (λ q. SafeIn q st) p h in
    elim (Option-cases (selected_disk st)) [
      | inl n ↦ rw (n, devices_key) h
      | inr (d, c) ↦ rw (c, devices_key) (elevate-IsSafe o (dev_path d) st i m (ap path_of c))
    ]
devices_key-IsSafe o k st p h = let r = subst (λ q. SafeIn q st) p h in ground arith

sudo_pass_key-IsSafe :
    (o : Answers) (buf : Text) (e : Option Text) (k : KeyCode) (st : VerifyScreen)
    → st.phase ≡ sudo_pass buf e
    → IsSafe st
    → Leaves IsSafe (sudo_pass_key o buf e k st)
unfolding sudo_pass_key
sudo_pass_key-IsSafe o buf e enter st p h =
    authenticated-IsSafe o (authenticate o.sudo buf) (record st { phase = sudo_pass [] e }) [] e
      refl (subst (λ q. SafeIn q st) p h)
sudo_pass_key-IsSafe o buf e k st p h = let r = subst (λ q. SafeIn q st) p h in ground arith

-- A key that changes neither the phase nor what the phase is about.
moved :
    (p : Phase) (st : VerifyScreen) (follow skip : Bool) (scroll : ℕ)
    → SafeIn p st
    → SafeIn p (record st { follow = follow; skip = skip; scroll = scroll })
moved devices st follow skip scroll h = h
moved (sudo_pass _ _) st follow skip scroll h = h
moved running st follow skip scroll h = h
moved (done _) st follow skip scroll h = h

scroll_key-IsSafe : (k : KeyCode) (st : VerifyScreen) → IsSafe st → Leaves IsSafe (scroll_key k st)
unfolding scroll_key
scroll_key-IsSafe up st h = moved st.phase st false st.skip (st.scroll - 1) h
scroll_key-IsSafe down st h = moved st.phase st st.follow st.skip (st.scroll + 1) h
scroll_key-IsSafe page_up st h = moved st.phase st false st.skip (st.scroll - 20) h
scroll_key-IsSafe page_down st h = moved st.phase st st.follow st.skip (st.scroll + 20) h
scroll_key-IsSafe end st h = moved st.phase st true st.skip st.scroll h
scroll_key-IsSafe (char c) st h = elim (Bool-cases (c == b'f')) [
  | inl t ↦ rw (t, scroll_key) (moved st.phase st true st.skip st.scroll h)
  | inr t ↦ rw (t, scroll_key) h
]
scroll_key-IsSafe _ st h = h

skipping-IsSafe : (m : VerifyMode) (st : VerifyScreen) → IsSafe st → Leaves IsSafe (skipping m st)
skipping-IsSafe install st h = moved st.phase st st.follow true st.scroll h
skipping-IsSafe VerifyMode.image st h = h

running_key-IsSafe :
    (k : KeyCode) (st : VerifyScreen) → IsSafe st → Leaves IsSafe (running_key k st)
unfolding running_key
running_key-IsSafe (char c) st h = elim (Bool-cases (c == b's')) [
  | inl t ↦ rw (t, running_key) (skipping-IsSafe st.mode st h)
  | inr t ↦ rw (t, running_key) (scroll_key-IsSafe (char c) st h)
]
running_key-IsSafe k st h = scroll_key-IsSafe k st h

done_key-IsSafe : (k : KeyCode) (st : VerifyScreen) → IsSafe st → Leaves IsSafe (done_key k st)
unfolding done_key
done_key-IsSafe esc st h = tt
done_key-IsSafe enter st h = tt
done_key-IsSafe k st h = scroll_key-IsSafe k st h

dispatch-IsSafe :
    (o : Answers) (p : Phase) (k : KeyCode) (st : VerifyScreen)
    → st.phase ≡ p
    → IsSafe st
    → Leaves IsSafe (dispatch o p k st)
unfolding dispatch
dispatch-IsSafe o devices k st p h = devices_key-IsSafe o k st p h
dispatch-IsSafe o (sudo_pass buf e) k st p h = sudo_pass_key-IsSafe o buf e k st p h
dispatch-IsSafe o running k st p h = running_key-IsSafe k st h
dispatch-IsSafe o (done _) k st p h = done_key-IsSafe k st h

pub on_key-IsSafe_verify :
    (o : Answers) (k : KeyCode) (st : VerifyScreen) → IsSafe st → Leaves IsSafe (on_key o k st)
unfolding on_key
on_key-IsSafe_verify o k st h = dispatch-IsSafe o st.phase k st refl h
