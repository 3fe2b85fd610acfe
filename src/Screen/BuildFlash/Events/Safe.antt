-- ===== src/Screen/BuildFlash/Events/Safe.antt =====
-- The workers' events on the BUILD & FLASH screen (tui/src/ui/buildflash.rs).
use nixnas.Base.{
  ℕ, ◌≡◌, refl, ◌∙◌, subst, sym, ◌++◌, true, List, [], ◌∷◌, Option, none, some, Result, ok, err,
  is_some, Bool-cases, arith, inl, inr, set,
}
use nixnas.Base.Text.{Text}
use nixnas.Build.Steps.{BuildEvent}
use nixnas.Flash.Events.{FlashEvent}
use nixnas.Screen.Key.{LogCall}
use nixnas.Screen.BuildFlash.{
  Stage, unavailable, pick_device, pass_first, pass_confirm, building, flash_review,
  flash_backup_ask, flash_confirm, flash_sudo, flashing, done, BuildFlowScreen,
}
use nixnas.Screen.BuildFlash.Gates.{SafeIn, IsSafe}
use nixnas.Screen.BuildFlash.Events.{
  drain_events, drain_build, drain_flash, build_loop, flash_loop, trim_log, finish_build,
  after_build_loop, finish_flash, step_call,
}

-- Same stage, workers, device and image.
abbrev Same : BuildFlowScreen → BuildFlowScreen → Type 0
Same s st =
    (s.stage ≡ st.stage)
    × (s.build_rx ≡ st.build_rx)
    × (s.flash_rx ≡ st.flash_rx)
    × (s.picked ≡ st.picked)
    × (s.built ≡ st.built)

build_loop-Same :
    (es : List BuildEvent) (st : BuildFlowScreen) (v : Option (Result Text Text))
    (calls : List LogCall)
    → Same (build_loop es st v calls).0 st
unfolding build_loop
build_loop-Same [] st v calls = (refl, refl, refl, refl, refl)
build_loop-Same (BuildEvent.step i s ∷ es) st v calls =
    build_loop-Same es (record st { steps = set st.steps i s }) v (calls ++ step_call i s)
build_loop-Same (BuildEvent.log l ∷ es) st v calls =
    build_loop-Same es (record st { log = st.log ++ (l ∷ []) }) v (calls ++ (LogCall.line l ∷ []))
build_loop-Same (BuildEvent.done r ∷ es) st v calls = build_loop-Same es st (some r) calls

flash_loop-Same :
    (es : List FlashEvent) (st : BuildFlowScreen) (v : Option (Result Text Text))
    (calls : List LogCall)
    → Same (flash_loop es st v calls).0 st
unfolding flash_loop
flash_loop-Same [] st v calls = (refl, refl, refl, refl, refl)
flash_loop-Same (FlashEvent.phase t ∷ es) st v calls =
    flash_loop-Same es (record st { gauge_title = t; progress = (0, 0) }) v
      (calls ++ (LogCall.phase t ∷ []))
flash_loop-Same (FlashEvent.progress n t ∷ es) st v calls =
    flash_loop-Same es (record st { progress = (n, t) }) v calls
flash_loop-Same (FlashEvent.done r ∷ es) st v calls = flash_loop-Same es st (some r) calls

trim_log-Same : (st : BuildFlowScreen) → Same (trim_log st) st
unfolding trim_log
trim_log-Same st = ground arith

-- What `SafeIn` says of a stage is about the workers, the device and the image only.
SafeIn-Same : (p : Stage) (s st : BuildFlowScreen) → Same s st → SafeIn p st → SafeIn p s
SafeIn-Same unavailable s st e h = ground arith
SafeIn-Same pick_device s st e h = ground arith
SafeIn-Same (pass_first _ _) s st e h = ground arith
SafeIn-Same (pass_confirm _ _) s st e h = ground arith
SafeIn-Same building s st e h = ground arith
SafeIn-Same flash_review s st e h = ground arith
SafeIn-Same flash_backup_ask s st e h = ground arith
SafeIn-Same (flash_confirm _ _) s st e h = ground arith
SafeIn-Same (flash_sudo _ _) s st e h = ground arith
SafeIn-Same flashing s st e h = ground arith
SafeIn-Same (done _) s st e h = ground arith

pub building_of :
    (p : Stage) (st : BuildFlowScreen)
    → is_some st.build_rx ≡ true
    → SafeIn p st
    → SafeIn building st
building_of unavailable st e h = ground arith
building_of pick_device st e h = ground arith
building_of (pass_first _ _) st e h = ground arith
building_of (pass_confirm _ _) st e h = ground arith
building_of building st e h = h
building_of flash_review st e h = ground arith
building_of flash_backup_ask st e h = ground arith
building_of (flash_confirm _ _) st e h = ground arith
building_of (flash_sudo _ _) st e h = ground arith
building_of flashing st e h = ground arith
building_of (done _) st e h = ground arith

pub flashing_of :
    (p : Stage) (st : BuildFlowScreen)
    → is_some st.flash_rx ≡ true
    → SafeIn p st
    → SafeIn flashing st
flashing_of unavailable st e h = ground arith
flashing_of pick_device st e h = ground arith
flashing_of (pass_first _ _) st e h = ground arith
flashing_of (pass_confirm _ _) st e h = ground arith
flashing_of building st e h = ground arith
flashing_of flash_review st e h = ground arith
flashing_of flash_backup_ask st e h = ground arith
flashing_of (flash_confirm _ _) st e h = ground arith
flashing_of (flash_sudo _ _) st e h = ground arith
flashing_of flashing st e h = h
flashing_of (done _) st e h = ground arith

Same-IsSafe : (s st : BuildFlowScreen) → Same s st → IsSafe st → IsSafe s
Same-IsSafe s st e h = SafeIn-Same s.stage s st e (subst (λ q. SafeIn q st) (sym e.0) h)

finish_build-IsSafe :
    (f : Text → ℕ) (human_size : ℕ → Text) (v : Option (Result Text Text)) (st : BuildFlowScreen)
    (calls : List LogCall)
    → SafeIn building st
    → IsSafe st
    → IsSafe (finish_build f human_size v st calls).0
finish_build-IsSafe f human_size none st calls b h = h
finish_build-IsSafe f human_size (some (ok _)) st calls (b, i, p) h = ((refl, i), p, refl)
finish_build-IsSafe f human_size (some (err _)) st calls (b, i, p) h = (refl, i)

after_build_loop-IsSafe :
    (f : Text → ℕ) (human_size : ℕ → Text)
    (r : BuildFlowScreen × Option (Result Text Text) × List LogCall) (st : BuildFlowScreen)
    → Same r.0 st
    → SafeIn building st
    → IsSafe st
    → IsSafe (after_build_loop f human_size r).0
after_build_loop-IsSafe f human_size (s, v, calls) st e b h =
    let t = trim_log-Same s in
    finish_build-IsSafe f human_size v (trim_log s) calls
      (SafeIn-Same building (trim_log s) s t (SafeIn-Same building s st e b))
      (Same-IsSafe (trim_log s) s t (Same-IsSafe s st e h))

drain_build-IsSafe :
    (f : Text → ℕ) (human_size : ℕ → Text) (es : List BuildEvent) (st : BuildFlowScreen)
    → IsSafe st
    → IsSafe (drain_build f human_size es st).0
unfolding drain_build
drain_build-IsSafe f human_size es st h = elim (Bool-cases (is_some st.build_rx)) [
  | inl t ↦
      rw (t, drain_build)
        (after_build_loop-IsSafe f human_size (build_loop es st none []) st
          (build_loop-Same es st none []) (building_of st.stage st t h) h)
  | inr t ↦ rw (t, drain_build) h
]

finish_flash-IsSafe :
    (r : BuildFlowScreen × Option (Result Text Text) × List LogCall) (st : BuildFlowScreen)
    → Same r.0 st
    → SafeIn flashing st
    → IsSafe st
    → IsSafe (finish_flash r).0
finish_flash-IsSafe (s, none, calls) st e b h = Same-IsSafe s st e h
finish_flash-IsSafe (s, some (ok _), calls) st e b h = (e.1 ∙ b.0, refl)
finish_flash-IsSafe (s, some (err _), calls) st e b h = (e.1 ∙ b.0, refl)

drain_flash-IsSafe :
    (es : List FlashEvent) (st : BuildFlowScreen) → IsSafe st → IsSafe (drain_flash es st).0
unfolding drain_flash
drain_flash-IsSafe es st h = elim (Bool-cases (is_some st.flash_rx)) [
  | inl t ↦
      rw (t, drain_flash)
        (finish_flash-IsSafe (flash_loop es st none []) st (flash_loop-Same es st none [])
          (flashing_of st.stage st t h) h)
  | inr t ↦ rw (t, drain_flash) h
]

pub drain_events-IsSafe :
    (f : Text → ℕ) (human_size : ℕ → Text) (bs : List BuildEvent) (fs : List FlashEvent)
    (st : BuildFlowScreen)
    → IsSafe st
    → IsSafe (drain_events f human_size bs fs st).0
unfolding drain_events
drain_events-IsSafe f human_size bs fs st h =
    drain_flash-IsSafe fs (drain_build f human_size bs st).0
      (drain_build-IsSafe f human_size bs st h)
