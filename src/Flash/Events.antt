-- ===== src/Flash/Events.antt =====
-- `FlashEvent` (tui/src/flash.rs): what a flash worker reports.
use nixnas.Base.{ℕ, Result}
use nixnas.Base.Text.{Text}

pub data FlashEvent : Type 0 where
  phase : Text → FlashEvent
  progress : ℕ → ℕ → FlashEvent
  done : Result Text Text → FlashEvent
