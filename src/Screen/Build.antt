-- ===== src/Screen/Build.antt =====
-- The BUILD screen (tui/src/ui/build.rs): its state, its keys, and what it does with its worker's events.
pub mod Safe
use nixnas.Base.{
  ℕ, ◌+◌, ◌-◌, Bool, true, false, ◌==◌, ltb, List, [], ◌∷◌, ◌++◌, Option, none, some, Result, ok,
  err, if◌then◌else◌, length, get_elem?, set, drop, pop, replicate, is_empty, is_some,
}
use nixnas.Base.Text.{Text, codes, text_eq, decimal}
use nixnas.Build.Pipeline.{SizeOverride, fixed, gib}
use nixnas.Build.Steps.{StepState, pending, BuildEvent, step_names}
use nixnas.Config.{Config}
use nixnas.Screen.Key.{
  KeyCode, esc, enter, up, down, page_up, page_down, end, backspace, char, Answers, Reply, stay,
  begin, home, LogCall,
}

pub data Phase : Type 0 where
  pass_first : (buf : Text) (problem : Option Text) → Phase
  pass_confirm : (first buf : Text) → Phase
  running : Phase
  done : (good : Bool) → Phase

-- The arguments of `spawn_build` that the screen chooses; the others are the application's settings.
pub record Job : Type 0 where
  pub passphrase : Text
  pub size : SizeOverride

pub record BuildScreen : Type 0 where
  pub phase : Phase
  pub steps : List StepState
  pub log : List Text
  pub scroll : ℕ
  pub follow : Bool
  pub rx : Option Job
  pub message : Option Text
  pub session_log : Option Text
  pub size : SizeOverride
  pub title : Text

-- `MINIMAL_IMAGE_GIB` of tui/src/build.rs
abbrev pub minimal_image_gib : ℕ
minimal_image_gib = 6

-- The size of a build, and the title that says it.
abbrev pub sized : Option Text → Text → SizeOverride × Text
sized (some _) image_attr = (
  gib minimal_image_gib,
  codes "Build image — minimal reusable "
      ++ (decimal minimal_image_gib ++ codes " GiB (flash to any stick, grows to fill)"),
)
sized none image_attr = (fixed, codes "Build image — fixed .#" ++ image_attr)

-- `BuildScreen::new`
unfoldable pub new : Config → BuildScreen
unfolding decimal
new cfg = record {
  phase = pass_first [] none;
  steps = replicate 6 pending;
  log = [];
  scroll = 0;
  follow = true;
  rx = none;
  message = none;
  session_log = none;
  size = (sized cfg.host_attr cfg.image_attr).0;
  title = (sized cfg.host_attr cfg.image_attr).1;
}

abbrev pub is_running : BuildScreen → Bool
is_running st = elim st.phase [ running ↦ true | _ ↦ false ]

abbrev to_phase : BuildScreen → Phase → Reply BuildScreen
to_phase st p = stay (record st { phase = p })

unfoldable pub pass_first_key : Text → Option Text → KeyCode → BuildScreen → Reply BuildScreen
pass_first_key buf e esc st = home
pass_first_key buf e enter st = to_phase st (
    if is_empty buf
    then pass_first [] (some (codes "Passphrase must not be empty"))
    else pass_confirm buf [])
pass_first_key buf e backspace st = to_phase st (pass_first (pop buf) e)
pass_first_key buf e (char c) st = to_phase st (pass_first (buf ++ (c ∷ [])) e)
pass_first_key buf e _ st = stay st

-- The passphrase goes to the worker.
abbrev pub start : Option Text → Text → BuildScreen → Reply BuildScreen
start log_file first st = begin (codes "build") (record st {
  session_log = log_file;
  phase = running;
  rx = some (record { passphrase = first; size = st.size });
})

unfoldable pub pass_confirm_key : Answers → Text → Text → KeyCode → BuildScreen → Reply BuildScreen
unfolding text_eq
pass_confirm_key o first buf esc st = home
pass_confirm_key o first buf enter st =
    if text_eq first buf
    then start o.log_file first st
    else to_phase st (pass_first [] (some (codes "Passphrases do not match — try again")))
pass_confirm_key o first buf backspace st = to_phase st (pass_confirm first (pop buf))
pass_confirm_key o first buf (char c) st = to_phase st (pass_confirm first (buf ++ (c ∷ [])))
pass_confirm_key o first buf _ st = stay st

unfoldable pub scroll_key : KeyCode → BuildScreen → Reply BuildScreen
scroll_key up st = stay (record st { follow = false; scroll = st.scroll - 1 })
scroll_key down st = stay (record st { scroll = st.scroll + 1 })
scroll_key page_up st = stay (record st { follow = false; scroll = st.scroll - 20 })
scroll_key page_down st = stay (record st { scroll = st.scroll + 20 })
scroll_key end st = stay (record st { follow = true })
scroll_key (char c) st = if c == b'f' then stay (record st { follow = true }) else stay st
scroll_key _ st = stay st

unfoldable pub done_key : KeyCode → BuildScreen → Reply BuildScreen
unfolding scroll_key
done_key esc st = home
done_key enter st = home
done_key k st = scroll_key k st

unfoldable pub dispatch : Answers → Phase → KeyCode → BuildScreen → Reply BuildScreen
unfolding pass_first_key pass_confirm_key scroll_key done_key
dispatch o (pass_first buf e) k st = pass_first_key buf e k st
dispatch o (pass_confirm first buf) k st = pass_confirm_key o first buf k st
dispatch o running k st = scroll_key k st
dispatch o (done _) k st = done_key k st

-- `on_key`
unfoldable pub on_key : Answers → KeyCode → BuildScreen → Reply BuildScreen
unfolding dispatch
on_key o k st = dispatch o st.phase k st

abbrev pub step_call : ℕ → StepState → List LogCall
step_call i s = elim (get_elem? step_names i) [ none ↦ [] | some name ↦ LogCall.step name s ∷ [] ]

-- The loop over the events: the screen, the verdict seen so far, the log calls.
unfoldable pub drain_loop :
    List BuildEvent
    → BuildScreen
    → Option (Result Text Text)
    → List LogCall
    → BuildScreen × Option (Result Text Text) × List LogCall
drain_loop [] st verdict calls = (st, verdict, calls)
drain_loop (BuildEvent.step i s ∷ es) st verdict calls =
    drain_loop es (record st { steps = set st.steps i s }) verdict (calls ++ step_call i s)
drain_loop (BuildEvent.log l ∷ es) st verdict calls =
    drain_loop es (record st { log = st.log ++ (l ∷ []) }) verdict (calls ++ (LogCall.line l ∷ []))
drain_loop (BuildEvent.done r ∷ es) st verdict calls = drain_loop es st (some r) calls

abbrev pub max_log_lines : ℕ
max_log_lines = 10_000

abbrev pub trim_chunk : ℕ
trim_chunk = 2000

-- A log beyond its bound loses its oldest lines.
unfoldable pub trim_log : BuildScreen → BuildScreen
trim_log st =
    let cut = length st.log - (max_log_lines - trim_chunk) in
    if ltb max_log_lines (length st.log)
    then record st { log = drop cut st.log; scroll = st.scroll - cut }
    else st

abbrev pub finish_drain :
    BuildScreen × Option (Result Text Text) × List LogCall → BuildScreen × List LogCall
finish_drain (st, none, calls) = (st, calls)
finish_drain (st, some (ok img), calls) = (
  record st { rx = none; message = some (codes "Built image: " ++ img); phase = done true },
  calls ++ (LogCall.done true (codes "Built image: " ++ img) ∷ []),
)
finish_drain (st, some (err e), calls) = (
  record st { rx = none; message = some e; phase = done false },
  calls ++ (LogCall.done false e ∷ []),
)

abbrev pub trimmed :
    BuildScreen × Option (Result Text Text) × List LogCall → BuildScreen × List LogCall
trimmed (st, verdict, calls) = finish_drain (trim_log st, verdict, calls)

-- `drain_events`, with the events that the worker has sent.
unfoldable pub drain_events : List BuildEvent → BuildScreen → BuildScreen × List LogCall
unfolding drain_loop trim_log
drain_events es st = if is_some st.rx then trimmed (drain_loop es st none []) else (st, [])
