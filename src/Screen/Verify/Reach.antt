-- ===== src/Screen/Verify/Reach.antt =====
-- The VERIFY screen over any sequence of keys and events (tui/src/ui/verify.rs).
use nixnas.Base.{ℕ, ◌≡◌, refl, subst, List, Option, some, Result, ok, err, arith}
use nixnas.Base.Text.{Text}
use nixnas.Flash.Disks.{Disk}
use nixnas.Screen.Key.{KeyCode, Answers, left, Leaves-left}
use nixnas.Verify.Events.{VerifyEvent}
use nixnas.Screen.Verify.{
  Phase, devices, running, sudo_pass, done, Job, VerifyScreen, new_image, new_install,
  refresh_disks, selected_disk,
}
use nixnas.Screen.Verify.Gates.{Checks, SafeIn, IsSafe}
use nixnas.Screen.Verify.Keys.{on_key}
use nixnas.Screen.Verify.Keys.Safe.{on_key-IsSafe_verify}
use nixnas.Screen.Verify.Events.{drain_events}
use nixnas.Screen.Verify.Events.Safe.{drain_events-IsSafe_verify}

pub data Reach : VerifyScreen → Type 0 where
  opened_image : (found : Result Text (Text × ℕ)) → Reach (new_image found)
  opened_install :
      (found : Option (Text × ℕ)) (disks : Result Text (List Disk))
      → Reach (new_install found disks)
  key :
      {st st' : VerifyScreen} (o : Answers) (k : KeyCode)
      → Reach st
      → left (on_key o k st) ≡ some st'
      → Reach st'
  drained : {st : VerifyScreen} (es : List VerifyEvent) → Reach st → Reach (drain_events es st).0

Reach-IsSafe : {st : VerifyScreen} → Reach st → IsSafe st
unfolding new_image new_install refresh_disks
Reach-IsSafe (opened_image (ok found)) = refl
Reach-IsSafe (opened_image (err e)) = refl
Reach-IsSafe (opened_install found (ok disks)) = (refl, refl)
Reach-IsSafe (opened_install found (err e)) = (refl, refl)
Reach-IsSafe (key {st = st} o k r e) =
    Leaves-left IsSafe _ (on_key-IsSafe_verify o k st (Reach-IsSafe r)) e
Reach-IsSafe (drained {st = st} es r) = drain_events-IsSafe_verify es st (Reach-IsSafe r)

SafeIn-Checks :
    (p : Phase) (st : VerifyScreen) (job : Job)
    → SafeIn p st
    → st.rx ≡ some job
    → (p ≡ running) × Checks st.mode (some job) st.image (selected_disk st)
SafeIn-Checks devices st job h e = ground arith
SafeIn-Checks (sudo_pass _ _) st job h e = ground arith
SafeIn-Checks running st job h e =
    (refl, subst (λ j. Checks st.mode j st.image (selected_disk st)) e h)
SafeIn-Checks (done _) st job h e = ground arith

-- Whenever a worker runs on the VERIFY screen, the screen is in the phase `running` and the worker checks
-- what the screen is for: the built image that it shows, or the chosen device, with the built image, if
-- there is one, as its reference.
pub Reach-Checks :
    {st : VerifyScreen} (job : Job)
    → Reach st
    → st.rx ≡ some job
    → (st.phase ≡ running) × Checks st.mode (some job) st.image (selected_disk st)
Reach-Checks {st = st} job r e = SafeIn-Checks st.phase st job (Reach-IsSafe r) e
