-- ===== src/Screen/Verify/Events.antt =====
-- What the VERIFY screen does with its worker's events (tui/src/ui/verify.rs, `drain_events`), and the
-- names of the steps (tui/src/verify.rs).
pub mod Safe
use nixnas.Base.{
  ℕ, ◌++◌, Bool, true, false, List, [], ◌∷◌, Option, none, some, Result, ok, err, if◌then◌else◌,
  get_elem?, set, is_some,
}
use nixnas.Base.Text.{Text, codes}
use nixnas.Build.Steps.{StepState}
use nixnas.Screen.Key.{LogCall}
use nixnas.Verify.Events.{VerifyEvent, step, detail, progress}
use nixnas.Screen.Verify.{VerifyMode, install, Phase, VerifyScreen}

abbrev last_step : VerifyMode → Text
last_step VerifyMode.image = codes "SHA-256 digest of the whole image"
last_step install = codes "Flash fidelity vs built image"

-- `STEP_NAMES_IMAGE` and `STEP_NAMES_INSTALL`
abbrev pub step_names : VerifyMode → List Text
step_names mode =
    codes "GPT partition table (ESP + store)"
    ∷ codes "systemd-boot on the ESP"
    ∷ codes "UKIs in EFI/Linux"
    ∷ codes "LUKS2 header on the store partition"
    ∷ last_step mode
    ∷ []

abbrev pub step_call : VerifyMode → ℕ → StepState → List LogCall
step_call mode i s = elim (get_elem? (step_names mode) i) [
  | none ↦ []
  | some name ↦ LogCall.step name s ∷ []
]

-- The loop over the events: the screen, the verdict seen so far, the log calls.
drain_loop :
    List VerifyEvent
    → VerifyScreen
    → Option (Result Text Text)
    → List LogCall
    → VerifyScreen × Option (Result Text Text) × List LogCall
drain_loop [] st verdict calls = (st, verdict, calls)
drain_loop (step i s ∷ es) st verdict calls =
    drain_loop es (record st { steps = set st.steps i s }) verdict (calls ++ step_call st.mode i s)
drain_loop (detail l ∷ es) st verdict calls =
    drain_loop es (record st { details = st.details ++ (l ∷ []) }) verdict
      (calls ++ (LogCall.line l ∷ []))
drain_loop (VerifyEvent.phase title ∷ es) st verdict calls =
    drain_loop es (record st { gauge_title = title; progress = (0, 0) }) verdict
      (calls ++ (LogCall.phase title ∷ []))
drain_loop (progress n total ∷ es) st verdict calls =
    drain_loop es (record st { progress = (n, total) }) verdict calls
drain_loop (VerifyEvent.done r ∷ es) st verdict calls = drain_loop es st (some r) calls

abbrev finish_drain :
    VerifyScreen × Option (Result Text Text) × List LogCall → VerifyScreen × List LogCall
finish_drain (st, none, calls) = (st, calls)
finish_drain (st, some (ok m), calls) = (
  record st { rx = none; message = some m; phase = Phase.done true },
  calls ++ (LogCall.done true m ∷ []),
)
finish_drain (st, some (err e), calls) = (
  record st { rx = none; message = some e; phase = Phase.done false },
  calls ++ (LogCall.done false e ∷ []),
)

-- `drain_events`, with the events that the worker has sent.
unfoldable pub drain_events : List VerifyEvent → VerifyScreen → VerifyScreen × List LogCall
unfolding drain_loop
drain_events es st = if is_some st.rx then finish_drain (drain_loop es st none []) else (st, [])
