-- ===== src/Screen/Flash/Reach.antt =====
-- The FLASH screen over any sequence of keys and events (tui/src/ui/flash.rs).
use nixnas.Base.{
  ℕ, ◌≡◌, ◌≤◌, ◌<◌, ◌↔◌, ap₂, none, refl, subst, sym, ◌∙◌, ap, inl, inr, true, List, [], ◌∷◌,
  Option, some, Result, ok, err, arith,
}
use mathlib.Core.List.{Memᴰ}
use mathlib.Core.Option.{some-injective}
use nixnas.Base.Text.{Text}
use nixnas.Flash.Disks.{Disk, dev_path}
use nixnas.Flash.Events.{FlashEvent}
use nixnas.Screen.Key.{KeyCode, Answers, left, Leaves-left}
use nixnas.Screen.Flash.{
  Phase, devices, summary, backup_ask, confirm, sudo_pass, running, done, Job, FlashScreen,
  selected_disk, fits, grows, size_of, new, on_key, refresh_disks,
}
use nixnas.Screen.Flash.Events.{drain_events}
use nixnas.Screen.Flash.Gates.{
  IsSafe, SafeIn, on_key-IsSafe, drain_events-IsSafe, new-IsSafe, IsArmed, path_of, image_path,
}
use nixnas.Screen.Flash.Typed.{past_gate, Confirms, Gated, on_key-Gated, drain_events-Gated}

-- Reachable screens, each with the screens it has been through, the latest first.
pub data Reach (config_path : Text) : List FlashScreen → FlashScreen → Type 0 where
  opened :
      (image : Result Text (Text × ℕ)) (disks : Result Text (List Disk))
      → Reach config_path [] (new image disks)
  key :
      {past : List FlashScreen} {st st' : FlashScreen} (o : Answers) (k : KeyCode)
      → Reach config_path past st
      → left (on_key config_path o k st) ≡ some st'
      → Reach config_path (st ∷ past) st'
  drained :
      {past : List FlashScreen} {st : FlashScreen} (es : List FlashEvent)
      → Reach config_path past st
      → Reach config_path (st ∷ past) (drain_events es st).0

-- One of the screens of `past` asked for the name of the device that `disk` is and had it typed.
abbrev Confirmed : List FlashScreen → Option Disk → Type 0
Confirmed past disk = (s : FlashScreen) × Memᴰ s past × Confirms s × (disk ≡ selected_disk s)

later :
    {past : List FlashScreen} {disk disk' : Option Disk} (st : FlashScreen)
    → disk' ≡ disk
    → Confirmed past disk
    → Confirmed (st ∷ past) disk'
later st e (s, m, c, d) = (s, Memᴰ.tail m, c, e ∙ d)

step :
    {past : List FlashScreen} (st s : FlashScreen)
    → (past_gate st.phase ≡ true → Confirmed past (selected_disk st))
    → Gated st s
    → past_gate s.phase ≡ true
    → Confirmed (st ∷ past) (selected_disk s)
step st s before (inl f) t = ground arith
step st s before (inr (d, inl g)) t = later st d (before g)
step st s before (inr (d, inr c)) t = (st, Memᴰ.head refl, c, d)

new-early :
    (image : Result Text (Text × ℕ)) (disks : Result Text (List Disk))
    → past_gate (new image disks).phase ≡ true
    → ⊥
unfolding new refresh_disks
new-early (ok _) (ok _) t = ground arith
new-early (ok _) (err _) t = ground arith
new-early (err _) (ok _) t = ground arith
new-early (err _) (err _) t = ground arith

Reach-Confirmed :
    {path : Text} {past : List FlashScreen} {st : FlashScreen}
    → Reach path past st
    → past_gate st.phase ≡ true
    → Confirmed past (selected_disk st)
Reach-Confirmed (opened image disks) t = absurd (new-early image disks t)
Reach-Confirmed {path = path} (key {st = st} {st' = s} o k r e) t =
    step st s (Reach-Confirmed r) (Leaves-left (Gated st) _ (on_key-Gated path o k st) e) t
Reach-Confirmed (drained {st = st} es r) t =
    step st (drain_events es st).0 (Reach-Confirmed r) (drain_events-Gated es st) t

Reach-IsSafe :
    {path : Text} {past : List FlashScreen} {st : FlashScreen} → Reach path past st → IsSafe st
Reach-IsSafe (opened image disks) = new-IsSafe image disks
Reach-IsSafe {path = path} (key {st = st} o k r e) =
    Leaves-left IsSafe _ (on_key-IsSafe path o k st (Reach-IsSafe r)) e
Reach-IsSafe (drained es r) = drain_events-IsSafe es _ (Reach-IsSafe r)

-- What is known of the job of a running worker.
pub record IsAuthorised (past : List FlashScreen) (st : FlashScreen) (job : Job) : Type 0 where
  pub runs : st.phase ≡ running
  pub image_size : ℕ
  pub built_image : st.image ≡ some (job.image, image_size)
  pub screen : FlashScreen
  pub earlier : Memᴰ screen past
  pub confirmation : Confirms screen
  pub same_dev : job.dev ≡ dev_path confirmation.disk
  pub fitting : (n : ℕ) → confirmation.disk.size ≡ some n → image_size ≤ n
  pub right_grow :
      (job.grow ≡ true) ↔ ((n : ℕ) × (confirmation.disk.size ≡ some n) × (image_size < n))

SafeIn-IsArmed :
    (p : Phase) (st : FlashScreen) (job : Job)
    → SafeIn p st
    → st.rx ≡ some job
    → (p ≡ running) × IsArmed st.rx st.image (selected_disk st)
SafeIn-IsArmed devices st job h e = ground arith
SafeIn-IsArmed summary st job h e = ground arith
SafeIn-IsArmed backup_ask st job h e = ground arith
SafeIn-IsArmed (Phase.store_pass _) st job h e = ground arith
SafeIn-IsArmed (confirm _ _) st job h e = ground arith
SafeIn-IsArmed (sudo_pass _ _) st job h e = ground arith
SafeIn-IsArmed running st job h e = (refl, h)
SafeIn-IsArmed (done _) st job h e = ground arith

image_path-some :
    (image : Option (Text × ℕ)) (p : Text)
    → image_path image ≡ some p
    → (n : ℕ) × (image ≡ some (p, n))
image_path-some none p e = cc e
image_path-some (some (q, n)) p e = (n, let same : q ≡ p = some-injective q p e in rw same refl)

fits-le :
    (p : Text) (img : ℕ) (size : Option ℕ) (n : ℕ)
    → fits (some (p, img)) size ≡ true
    → size ≡ some n
    → img ≤ n
fits-le p img none n fit e = cc e
fits-le p img (some dev) n fit e = let same : dev ≡ n = some-injective dev n e in ground arith

grows_iff :
    (p : Text) (img : ℕ) (size : Option ℕ)
    → (grows (some (p, img)) size ≡ true) ↔ ((n : ℕ) × (size ≡ some n) × (img < n))
grows_iff p img none = (λ e. cc e, λ (n, e, _). cc e)
grows_iff p img (some dev) = (
  λ e. (dev, refl, ground arith),
  λ (n, e, lt). let same : dev ≡ n = some-injective dev n e in ground arith,
)

-- Whenever a worker runs on the FLASH screen, it was given the built image; on an earlier screen the
-- name of the device that it overwrites was asked for and typed; if the size of that device is
-- known, the image is not larger; and the worker is told to grow exactly if that size is known and
-- the image is smaller.
pub Reach-IsAuthorised :
    {path : Text} {past : List FlashScreen} {st : FlashScreen} (job : Job)
    → Reach path past st
    → st.rx ≡ some job
    → IsAuthorised past st job
Reach-IsAuthorised {st = st} job r e =
    let (p, a) = SafeIn-IsArmed st.phase st job (Reach-IsSafe r) e in
    let same = some-injective _ _ (sym a.armed ∙ e) in
    let image = image_path-some st.image job.image (a.right_image ∙ ap (λ j. some j.image) same) in
    let (s, m, c, d) = Reach-Confirmed r (subst (λ q. past_gate q ≡ true) (sym p) refl) in
    record {
      runs = p;
      image_size = image.0;
      built_image = image.1;
      screen = s;
      earlier = m;
      confirmation = c;
      same_dev =
          some-injective _ _
            (ap (λ j. some j.dev) (sym same) ∙ sym a.right_dev ∙ ap path_of (d ∙ c.chosen));
      fitting = λ n.
          fits-le job.image image.0 c.disk.size n
            (ap₂ (λ i disk. fits i (size_of disk)) (sym image.1) (sym (d ∙ c.chosen)) ∙ a.fitting);
      right_grow =
          subst (λ b. (b ≡ true) ↔ ((n : ℕ) × (c.disk.size ≡ some n) × (image.0 < n)))
            (ap₂ (λ i disk. grows i (size_of disk)) (sym image.1) (sym (d ∙ c.chosen))
              ∙ sym a.right_grow
              ∙ ap (λ j. j.grow) same)
            (grows_iff job.image image.0 c.disk.size);
    }
