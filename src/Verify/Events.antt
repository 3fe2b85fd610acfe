-- ===== src/Verify/Events.antt =====
-- `VerifyEvent` (tui/src/verify.rs): what a verification reports.
use nixnas.Base.{ℕ, Result}
use nixnas.Base.Text.{Text}
use nixnas.Build.Steps.{StepState}

pub data VerifyEvent : Type 0 where
  step : ℕ → StepState → VerifyEvent
  detail phase : Text → VerifyEvent
  progress : ℕ → ℕ → VerifyEvent
  done : Result Text Text → VerifyEvent
