-- ===== src/Screen/Flash/Events.antt =====
-- What the FLASH screen does with its worker's events (tui/src/ui/flash.rs, `drain_events`).
use nixnas.Base.{
  ◌++◌, true, false, List, [], ◌∷◌, Option, none, some, Result, ok, err, if◌then◌else◌, is_some,
}
use nixnas.Base.Text.{Text}
use nixnas.Flash.Events.{FlashEvent}
use nixnas.Screen.Key.{LogCall}
use nixnas.Screen.Flash.{done, FlashScreen}

-- One pass of the loop of `drain_events`: the screen, the verdict seen so far, the log calls.
unfoldable pub drain_loop :
    List FlashEvent
    → FlashScreen
    → Option (Result Text Text)
    → List LogCall
    → FlashScreen × Option (Result Text Text) × List LogCall
drain_loop [] st verdict calls = (st, verdict, calls)
drain_loop (FlashEvent.phase title ∷ es) st verdict calls =
    drain_loop es (record st { gauge_title = title; progress = (0, 0) }) verdict
      (calls ++ (LogCall.phase title ∷ []))
drain_loop (FlashEvent.progress n total ∷ es) st verdict calls =
    drain_loop es (record st { progress = (n, total) }) verdict calls
drain_loop (FlashEvent.done r ∷ es) st verdict calls = drain_loop es st (some r) calls

abbrev pub finish_drain :
    FlashScreen × Option (Result Text Text) × List LogCall → FlashScreen × List LogCall
finish_drain (st, none, calls) = (st, calls)
finish_drain (st, some (ok m), calls) = (
  record st { rx = none; message = some m; phase = done true },
  calls ++ (LogCall.done true m ∷ []),
)
finish_drain (st, some (err e), calls) = (
  record st { rx = none; message = some e; phase = done false },
  calls ++ (LogCall.done false e ∷ []),
)

-- `drain_events`, with the events that the worker has sent; without a receiver there are none.
unfoldable pub drain_events : List FlashEvent → FlashScreen → FlashScreen × List LogCall
unfolding drain_loop
drain_events es st = if is_some st.rx then finish_drain (drain_loop es st none []) else (st, [])
