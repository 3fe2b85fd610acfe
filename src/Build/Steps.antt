-- ===== src/Build/Steps.antt =====
-- The checklist of the build (tui/src/build.rs): the protocol between the worker and the screens.
use nixnas.Base.{ℕ, List, [], ◌∷◌, Result}
use nixnas.Base.Text.{Text, codes}

pub data StepState : Type 0 where
  pending running ok skipped fail : StepState

-- `STEP_NAMES`
abbrev pub step_names : List Text
step_names =
    codes "Evaluate image script (nix build)"
    ∷ codes "LUKS store passphrase → RAM file"
    ∷ codes "Console auth hash (mkpasswd) → RAM file"
    ∷ codes "Secure Boot PKI (sops decrypt + inject)"
    ∷ codes "disko builder VM (write .raw)"
    ∷ codes ".raw image ready"
    ∷ []

pub data BuildEvent : Type 0 where
  step : ℕ → StepState → BuildEvent
  log : Text → BuildEvent
  done : Result Text Text → BuildEvent
