-- ===== src/Screen/BuildFlash/Events/Bounds.antt =====
-- The length of the log pane of the BUILD & FLASH screen (tui/src/ui/buildflash.rs).
use nixnas.Base.{
  ℕ, ◌-◌, [], ◌≤◌, List, Option, none, some, Result, ok, err, length, ltb, length-drop, is_some,
  Bool-cases, inl, inr, arith,
}
use nixnas.Base.Text.{Text}
use nixnas.Build.Steps.{BuildEvent}
use nixnas.Screen.Key.{LogCall}
use nixnas.Screen.BuildFlash.{BuildFlowScreen}
use nixnas.Screen.BuildFlash.Events.{
  max_log_lines, trim_chunk, trim_log, drain_build, build_loop, after_build_loop, finish_build,
}

trim_log-bounded : (st : BuildFlowScreen) → length ((trim_log st).log) ≤ max_log_lines
unfolding trim_log
trim_log-bounded st = elim (Bool-cases (ltb max_log_lines (length st.log))) [
  | inl t ↦
      rw (t, trim_log)
        (let cut = length st.log - (max_log_lines - trim_chunk) in
          ground (arith, length-drop cut st.log))
  | inr t ↦ rw (t, trim_log) (ground arith)
]

finish_build-bounded :
    (f : Text → ℕ) (human_size : ℕ → Text) (v : Option (Result Text Text)) (st : BuildFlowScreen)
    (calls : List LogCall)
    → length st.log ≤ max_log_lines
    → length ((finish_build f human_size v st calls).0).log ≤ max_log_lines
finish_build-bounded f human_size none st calls h = h
finish_build-bounded f human_size (some (ok _)) st calls h = h
finish_build-bounded f human_size (some (err _)) st calls h = h

after_build_loop-bounded :
    (f : Text → ℕ) (human_size : ℕ → Text)
    (r : BuildFlowScreen × Option (Result Text Text) × List LogCall)
    → length ((after_build_loop f human_size r).0).log ≤ max_log_lines
after_build_loop-bounded f human_size (s, v, calls) =
    finish_build-bounded f human_size v (trim_log s) calls (trim_log-bounded s)

-- However many lines a build prints between two frames, the log pane has at most its bound of lines
-- after they have been drained, if it had at most that many before.
pub drain_build-bounded :
    (f : Text → ℕ) (human_size : ℕ → Text) (es : List BuildEvent) (st : BuildFlowScreen)
    → length st.log ≤ max_log_lines
    → length ((drain_build f human_size es st).0).log ≤ max_log_lines
unfolding drain_build
drain_build-bounded f human_size es st h = elim (Bool-cases (is_some st.build_rx)) [
  | inl t ↦ rw (t, drain_build) (after_build_loop-bounded f human_size (build_loop es st none []))
  | inr t ↦ rw (t, drain_build) h
]
