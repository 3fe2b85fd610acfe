-- ===== src/Screen/Verify/Events/Safe.antt =====
-- The worker's events on the VERIFY screen (tui/src/ui/verify.rs).
use nixnas.Base.{
  ◌≡◌, refl, ◌++◌, List, [], ◌∷◌, Option, none, some, Result, ok, err, is_some, set, Bool-cases,
  inl, inr,
}
use nixnas.Base.Text.{Text}
use nixnas.Screen.Key.{LogCall}
use nixnas.Verify.Events.{VerifyEvent}
use nixnas.Screen.Verify.{Phase, devices, running, sudo_pass, done, VerifyScreen}
use nixnas.Screen.Verify.Gates.{SafeIn, IsSafe}
use nixnas.Screen.Verify.Events.{drain_loop, finish_drain, drain_events, step_call}

SafeIn-shown :
    (p : Phase) (st s : VerifyScreen)
    → s.rx ≡ st.rx
    → s.mode ≡ st.mode
    → s.image ≡ st.image
    → s.disks ≡ st.disks
    → s.selected ≡ st.selected
    → s.pending_dev ≡ st.pending_dev
    → SafeIn p st
    → SafeIn p s
SafeIn-shown devices st s a b c d e f h = rw (a, b) h
SafeIn-shown (sudo_pass _ _) st s a b c d e f h = rw (a, b, d, e, f) h
SafeIn-shown running st s a b c d e f h = rw (a, b, c, d, e) h
SafeIn-shown (done _) st s a b c d e f h = rw a h

drain_loop-IsSafe :
    (es : List VerifyEvent) (st : VerifyScreen) (v : Option (Result Text Text))
    (calls : List LogCall)
    → IsSafe st
    → IsSafe (drain_loop es st v calls).0
unfolding drain_loop
drain_loop-IsSafe [] st v calls h = h
drain_loop-IsSafe (VerifyEvent.step i s ∷ es) st v calls h =
    let t = record st { steps = set st.steps i s } in
    drain_loop-IsSafe es t v (calls ++ step_call st.mode i s)
      (SafeIn-shown st.phase st t refl refl refl refl refl refl h)
drain_loop-IsSafe (VerifyEvent.detail l ∷ es) st v calls h =
    let t = record st { details = st.details ++ (l ∷ []) } in
    drain_loop-IsSafe es t v (calls ++ (LogCall.line l ∷ []))
      (SafeIn-shown st.phase st t refl refl refl refl refl refl h)
drain_loop-IsSafe (VerifyEvent.phase title ∷ es) st v calls h =
    let t = record st { gauge_title = title; progress = (0, 0) } in
    drain_loop-IsSafe es t v (calls ++ (LogCall.phase title ∷ []))
      (SafeIn-shown st.phase st t refl refl refl refl refl refl h)
drain_loop-IsSafe (VerifyEvent.progress n m ∷ es) st v calls h =
    let t = record st { progress = (n, m) } in
    drain_loop-IsSafe es t v calls (SafeIn-shown st.phase st t refl refl refl refl refl refl h)
drain_loop-IsSafe (VerifyEvent.done r ∷ es) st v calls h = drain_loop-IsSafe es st (some r) calls h

finish_drain-IsSafe :
    (r : VerifyScreen × Option (Result Text Text) × List LogCall)
    → IsSafe r.0
    → IsSafe (finish_drain r).0
finish_drain-IsSafe (st, none, calls) h = h
finish_drain-IsSafe (st, some (ok _), calls) h = refl
finish_drain-IsSafe (st, some (err _), calls) h = refl

pub drain_events-IsSafe_verify :
    (es : List VerifyEvent) (st : VerifyScreen) → IsSafe st → IsSafe (drain_events es st).0
unfolding drain_events
drain_events-IsSafe_verify es st h = elim (Bool-cases (is_some st.rx)) [
  | inl t ↦
      rw (t, drain_events)
        (finish_drain-IsSafe (drain_loop es st none []) (drain_loop-IsSafe es st none [] h))
  | inr t ↦ rw (t, drain_events) h
]
