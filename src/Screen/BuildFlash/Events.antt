-- ===== src/Screen/BuildFlash/Events.antt =====
-- What the BUILD & FLASH screen does with its workers' events (tui/src/ui/buildflash.rs, `drain_events`).
pub mod Safe
pub mod Bounds
use nixnas.Base.{
  ℕ, ◌-◌, ◌++◌, Bool, true, false, ltb, List, [], ◌∷◌, Option, none, some, Result, ok, err,
  if◌then◌else◌, length, get_elem?, set, drop, is_some,
}
use nixnas.Base.Text.{Text, codes}
use nixnas.Build.Steps.{StepState, BuildEvent, step_names}
use nixnas.Flash.Events.{FlashEvent}
use nixnas.Screen.Key.{LogCall}
use nixnas.Screen.BuildFlash.{Stage, flash_review, done, BuildFlowScreen}

abbrev pub max_log_lines : ℕ
max_log_lines = 10000

abbrev pub trim_chunk : ℕ
trim_chunk = 2000

abbrev step_call : ℕ → StepState → List LogCall
step_call i s = elim (get_elem? step_names i) [ none ↦ [] | some name ↦ LogCall.step name s ∷ [] ]

-- The loop over the build's events: the screen, the verdict seen so far, the log calls.
build_loop :
    List BuildEvent
    → BuildFlowScreen
    → Option (Result Text Text)
    → List LogCall
    → BuildFlowScreen × Option (Result Text Text) × List LogCall
build_loop [] st verdict calls = (st, verdict, calls)
build_loop (BuildEvent.step i s ∷ es) st verdict calls =
    build_loop es (record st { steps = set st.steps i s }) verdict (calls ++ step_call i s)
build_loop (BuildEvent.log l ∷ es) st verdict calls =
    build_loop es (record st { log = st.log ++ (l ∷ []) }) verdict (calls ++ (LogCall.line l ∷ []))
build_loop (BuildEvent.done r ∷ es) st verdict calls = build_loop es st (some r) calls

-- A log that has grown beyond its bound loses its oldest lines, and the scroll position moves along.
unfoldable pub trim_log : BuildFlowScreen → BuildFlowScreen
trim_log st =
    let cut = length st.log - (max_log_lines - trim_chunk) in
    if ltb max_log_lines (length st.log)
    then record st { log = drop cut st.log; scroll = st.scroll - cut }
    else st

abbrev built_message : (ℕ → Text) → Text → ℕ → Text
built_message human_size image size =
    codes "Built image: " ++ (image ++ (codes " (" ++ (human_size size ++ codes ")")))

-- The verdict of the build: a built image is handed to the flash on the same device.
abbrev finish_build :
    (Text → ℕ)
    → (ℕ → Text)
    → Option (Result Text Text)
    → BuildFlowScreen
    → List LogCall
    → BuildFlowScreen × List LogCall
finish_build file_size human_size none st calls = (st, calls)
finish_build file_size human_size (some (ok image)) st calls = (
  record st { build_rx = none; built = some (image, file_size image); stage = flash_review },
  calls ++ (LogCall.done true (built_message human_size image (file_size image)) ∷ []),
)
finish_build file_size human_size (some (err e)) st calls = (
  record st { build_rx = none; message = some e; stage = done false },
  calls ++ (LogCall.done false e ∷ []),
)

abbrev after_build_loop :
    (Text → ℕ)
    → (ℕ → Text)
    → BuildFlowScreen × Option (Result Text Text) × List LogCall
    → BuildFlowScreen × List LogCall
after_build_loop file_size human_size (st, verdict, calls) =
    finish_build file_size human_size verdict (trim_log st) calls

-- The first half of `drain_events`.
unfoldable pub drain_build :
    (Text → ℕ) → (ℕ → Text) → List BuildEvent → BuildFlowScreen → BuildFlowScreen × List LogCall
unfolding build_loop
drain_build file_size human_size es st =
    if is_some st.build_rx
    then after_build_loop file_size human_size (build_loop es st none [])
    else (st, [])

flash_loop :
    List FlashEvent
    → BuildFlowScreen
    → Option (Result Text Text)
    → List LogCall
    → BuildFlowScreen × Option (Result Text Text) × List LogCall
flash_loop [] st verdict calls = (st, verdict, calls)
flash_loop (FlashEvent.phase title ∷ es) st verdict calls =
    flash_loop es (record st { gauge_title = title; progress = (0, 0) }) verdict
      (calls ++ (LogCall.phase title ∷ []))
flash_loop (FlashEvent.progress n total ∷ es) st verdict calls =
    flash_loop es (record st { progress = (n, total) }) verdict calls
flash_loop (FlashEvent.done r ∷ es) st verdict calls = flash_loop es st (some r) calls

abbrev finish_flash :
    BuildFlowScreen × Option (Result Text Text) × List LogCall → BuildFlowScreen × List LogCall
finish_flash (st, none, calls) = (st, calls)
finish_flash (st, some (ok m), calls) = (
  record st { flash_rx = none; message = some m; stage = done true },
  calls ++ (LogCall.done true m ∷ []),
)
finish_flash (st, some (err e), calls) = (
  record st { flash_rx = none; message = some e; stage = done false },
  calls ++ (LogCall.done false e ∷ []),
)

-- The second half of `drain_events`.
unfoldable pub drain_flash : List FlashEvent → BuildFlowScreen → BuildFlowScreen × List LogCall
unfolding flash_loop
drain_flash es st =
    if is_some st.flash_rx then finish_flash (flash_loop es st none []) else (st, [])

-- `drain_events`, with the events that each worker has sent.
unfoldable pub drain_events :
    (Text → ℕ)
    → (ℕ → Text)
    → List BuildEvent
    → List FlashEvent
    → BuildFlowScreen
    → BuildFlowScreen × List LogCall
unfolding drain_build drain_flash
drain_events file_size human_size bs fs st =
    let built = drain_build file_size human_size bs st in
    let flashed = drain_flash fs built.0 in (flashed.0, built.1 ++ flashed.1)
