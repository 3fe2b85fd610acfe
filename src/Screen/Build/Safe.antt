-- ===== src/Screen/Build/Safe.antt =====
-- The BUILD screen over any sequence of keys and events (tui/src/ui/build.rs).
use nixnas.Base.{
  ◌+◌, ◌-◌, ◌≡◌, refl, sym, ◌∙◌, subst, true, false, ◌==◌, ltb, List, [], ◌∷◌, ◌++◌, Option, none,
  some, Result, ok, err, is_some, is_empty, set, length, drop, Bool-cases, inl, inr, arith,
}
use nixnas.Base.Text.{Text, text_eq}
use nixnas.Build.Pipeline.{SizeOverride}
use nixnas.Build.Steps.{BuildEvent}
use nixnas.Config.{Config}
use nixnas.Screen.Key.{
  KeyCode, esc, enter, up, down, page_up, page_down, end, backspace, char, Answers, Leaves,
  Leaves-left, left, LogCall,
}
use nixnas.Screen.Build.{
  Phase, pass_first, pass_confirm, running, done, Job, BuildScreen, sized, new, pass_first_key,
  pass_confirm_key, scroll_key, done_key, dispatch, on_key, step_call, drain_loop, max_log_lines,
  trim_chunk, trim_log, finish_drain, trimmed, drain_events,
}

-- A build that runs has a passphrase, and the size that the screen's title states.
abbrev pub Builds : Option Job → SizeOverride → Type 0
Builds none size = ⊥
Builds (some job) size = (is_empty job.passphrase ≡ false) × (job.size ≡ size)

abbrev pub SafeIn : Phase → BuildScreen → Type 0
SafeIn (pass_first _ _) st = st.rx ≡ none
SafeIn (pass_confirm first _) st = (st.rx ≡ none) × (is_empty first ≡ false)
SafeIn running st = Builds st.rx st.size
SafeIn (done _) st = st.rx ≡ none

-- The size stays that of the settings that the screen was opened with.
pub record IsSafe (cfg : Config) (st : BuildScreen) : Type 0 where
  pub in_phase : SafeIn st.phase st
  pub same_size : st.size ≡ (sized cfg.host_attr cfg.image_attr).0

SafeIn-shown :
    (p : Phase) (st s : BuildScreen) → s.rx ≡ st.rx → s.size ≡ st.size → SafeIn p st → SafeIn p s
SafeIn-shown (pass_first _ _) st s a b h = rw a h
SafeIn-shown (pass_confirm _ _) st s a b h = rw a h
SafeIn-shown running st s a b h = rw (a, b) h
SafeIn-shown (done _) st s a b h = rw a h

-- What changes neither the phase nor the worker nor the size.
shown :
    (cfg : Config) (st s : BuildScreen)
    → s.phase ≡ st.phase
    → s.rx ≡ st.rx
    → s.size ≡ st.size
    → IsSafe cfg st
    → IsSafe cfg s
shown cfg st s p a b h = record {
  in_phase = subst (λ q. SafeIn q s) (sym p) (SafeIn-shown st.phase st s a b h.in_phase);
  same_size = b ∙ h.same_size;
}

module _ (cfg : Config) where
  pass_first_key-IsSafe :
      (buf : Text) (e : Option Text) (k : KeyCode) (st : BuildScreen)
      → st.rx ≡ none
      → IsSafe cfg st
      → Leaves (IsSafe cfg) (pass_first_key buf e k st)
  unfolding pass_first_key
  pass_first_key-IsSafe buf e esc st i h = tt
  pass_first_key-IsSafe buf e enter st i h = elim (Bool-cases (is_empty buf)) [
    | inl empty ↦ rw empty (record { in_phase = i; same_size = h.same_size })
    | inr typed ↦ rw typed (record { in_phase = (i, typed); same_size = h.same_size })
  ]
  pass_first_key-IsSafe buf e backspace st i h = record { in_phase = i; same_size = h.same_size }
  pass_first_key-IsSafe buf e (char c) st i h = record { in_phase = i; same_size = h.same_size }
  pass_first_key-IsSafe buf e _ st i h = h

  pass_confirm_key-IsSafe :
      (o : Answers) (first buf : Text) (k : KeyCode) (st : BuildScreen)
      → (st.rx ≡ none) × (is_empty first ≡ false)
      → IsSafe cfg st
      → Leaves (IsSafe cfg) (pass_confirm_key o first buf k st)
  unfolding pass_confirm_key
  pass_confirm_key-IsSafe o first buf esc st i h = tt
  pass_confirm_key-IsSafe o first buf enter st i h = elim (Bool-cases (text_eq first buf)) [
    | inl same ↦ rw same (record { in_phase = (i.1, refl); same_size = h.same_size })
    | inr other ↦ rw other (record { in_phase = i.0; same_size = h.same_size })
  ]
  pass_confirm_key-IsSafe o first buf backspace st i h = record {
    in_phase = i;
    same_size = h.same_size;
  }
  pass_confirm_key-IsSafe o first buf (char c) st i h = record {
    in_phase = i;
    same_size = h.same_size;
  }
  pass_confirm_key-IsSafe o first buf _ st i h = h

  scroll_key-IsSafe :
      (k : KeyCode) (st : BuildScreen) → IsSafe cfg st → Leaves (IsSafe cfg) (scroll_key k st)
  unfolding scroll_key
  scroll_key-IsSafe up st h =
      shown cfg st (record st { follow = false; scroll = st.scroll - 1 }) refl refl refl h
  scroll_key-IsSafe down st h = shown cfg st (record st { scroll = st.scroll + 1 }) refl refl refl h
  scroll_key-IsSafe page_up st h =
      shown cfg st (record st { follow = false; scroll = st.scroll - 20 }) refl refl refl h
  scroll_key-IsSafe page_down st h =
      shown cfg st (record st { scroll = st.scroll + 20 }) refl refl refl h
  scroll_key-IsSafe end st h = shown cfg st (record st { follow = true }) refl refl refl h
  scroll_key-IsSafe (char c) st h = elim (Bool-cases (c == b'f')) [
    | inl t ↦ rw t (shown cfg st (record st { follow = true }) refl refl refl h)
    | inr t ↦ rw t h
  ]
  scroll_key-IsSafe _ st h = h

  done_key-IsSafe :
      (k : KeyCode) (st : BuildScreen) → IsSafe cfg st → Leaves (IsSafe cfg) (done_key k st)
  unfolding done_key
  done_key-IsSafe esc st h = tt
  done_key-IsSafe enter st h = tt
  done_key-IsSafe k st h = scroll_key-IsSafe k st h

  dispatch-IsSafe :
      (o : Answers) (p : Phase) (k : KeyCode) (st : BuildScreen)
      → SafeIn p st
      → IsSafe cfg st
      → Leaves (IsSafe cfg) (dispatch o p k st)
  unfolding dispatch
  dispatch-IsSafe o (pass_first buf e) k st i h = pass_first_key-IsSafe buf e k st i h
  dispatch-IsSafe o (pass_confirm first buf) k st i h = pass_confirm_key-IsSafe o first buf k st i h
  dispatch-IsSafe o running k st i h = scroll_key-IsSafe k st h
  dispatch-IsSafe o (done _) k st i h = done_key-IsSafe k st h

  drain_loop-IsSafe :
      (es : List BuildEvent) (st : BuildScreen) (v : Option (Result Text Text))
      (calls : List LogCall)
      → IsSafe cfg st
      → IsSafe cfg (drain_loop es st v calls).0
  unfolding drain_loop
  drain_loop-IsSafe [] st v calls h = h
  drain_loop-IsSafe (BuildEvent.step i s ∷ es) st v calls h =
      let t = record st { steps = set st.steps i s } in
      drain_loop-IsSafe es t v (calls ++ step_call i s) (shown cfg st t refl refl refl h)
  drain_loop-IsSafe (BuildEvent.log l ∷ es) st v calls h =
      let t = record st { log = st.log ++ (l ∷ []) } in
      drain_loop-IsSafe es t v (calls ++ (LogCall.line l ∷ [])) (shown cfg st t refl refl refl h)
  drain_loop-IsSafe (BuildEvent.done r ∷ es) st v calls h = drain_loop-IsSafe es st (some r) calls h

  trim_log-IsSafe : (st : BuildScreen) → IsSafe cfg st → IsSafe cfg (trim_log st)
  unfolding trim_log
  trim_log-IsSafe st h =
      let cut = length st.log - (max_log_lines - trim_chunk) in
      elim (Bool-cases (ltb max_log_lines (length st.log))) [
        | inl long ↦ rw long (
            shown cfg st (record st { log = drop cut st.log; scroll = st.scroll - cut }) refl refl
              refl h)
        | inr short ↦ rw short h
      ]

  finish_drain-IsSafe :
      (r : BuildScreen × Option (Result Text Text) × List LogCall)
      → IsSafe cfg r.0
      → IsSafe cfg (finish_drain r).0
  finish_drain-IsSafe (st, none, calls) h = h
  finish_drain-IsSafe (st, some (ok img), calls) h = record {
    in_phase = refl;
    same_size = h.same_size;
  }
  finish_drain-IsSafe (st, some (err e), calls) h = record {
    in_phase = refl;
    same_size = h.same_size;
  }

  trimmed-IsSafe :
      (r : BuildScreen × Option (Result Text Text) × List LogCall)
      → IsSafe cfg r.0
      → IsSafe cfg (trimmed r).0
  unfolding trim_log
  trimmed-IsSafe (st, v, calls) h =
      finish_drain-IsSafe (trim_log st, v, calls) (trim_log-IsSafe st h)

  drain_events-IsSafe :
      (es : List BuildEvent) (st : BuildScreen) → IsSafe cfg st → IsSafe cfg (drain_events es st).0
  unfolding drain_events
  drain_events-IsSafe es st h = elim (Bool-cases (is_some st.rx)) [
    | inl t ↦ rw t (trimmed-IsSafe (drain_loop es st none []) (drain_loop-IsSafe es st none [] h))
    | inr t ↦ rw t h
  ]

-- What can become of the BUILD screen, opened with these settings.
pub data Reach (cfg : Config) : BuildScreen → Type 0 where
  opened : Reach cfg (new cfg)
  key :
      {st st' : BuildScreen} (o : Answers) (k : KeyCode)
      → Reach cfg st
      → left (on_key o k st) ≡ some st'
      → Reach cfg st'
  drained :
      {st : BuildScreen} (es : List BuildEvent) → Reach cfg st → Reach cfg (drain_events es st).0

pub Reach-IsSafe : {cfg : Config} {st : BuildScreen} → Reach cfg st → IsSafe cfg st
unfolding new on_key
Reach-IsSafe opened = record { in_phase = refl; same_size = refl }
Reach-IsSafe {cfg} (key {st} o k past e) =
    let h = Reach-IsSafe past in
    Leaves-left (IsSafe cfg) _ (dispatch-IsSafe cfg o st.phase k st h.in_phase h) e
Reach-IsSafe {cfg} (drained {st} es past) = drain_events-IsSafe cfg es st (Reach-IsSafe past)

running_job :
    (p : Phase) (st : BuildScreen) (job : Job)
    → SafeIn p st
    → st.rx ≡ some job
    → (p ≡ running) × (is_empty job.passphrase ≡ false) × (job.size ≡ st.size)
running_job (pass_first _ _) st job h e = ground arith
running_job (pass_confirm _ _) st job h e = ground arith
running_job running st job h e =
    let (typed, size) = subst (λ j. Builds j st.size) e h in (refl, typed, size)
running_job (done _) st job h e = ground arith

size_by_host :
    (host : Option Text) (image_attr : Text)
    → (sized host image_attr).0
      ≡ elim host [ none ↦ SizeOverride.fixed | some _ ↦ SizeOverride.gib 6 ]
size_by_host none image_attr = refl
size_by_host (some h) image_attr = refl

-- Whenever a build runs on the BUILD screen, the screen is in the phase `running`, the passphrase is
-- not empty, and the size is that of the settings that the screen was opened with: the minimal image
-- of 6 GiB where they name a host, the fixed one otherwise.
pub Reach-Builds :
    {cfg : Config} {st : BuildScreen} (job : Job)
    → Reach cfg st
    → st.rx ≡ some job
    → (st.phase ≡ running)
      × (is_empty job.passphrase ≡ false)
      × (job.size ≡ elim cfg.host_attr [ none ↦ SizeOverride.fixed | some _ ↦ SizeOverride.gib 6 ])
Reach-Builds {cfg} {st} job past e =
    let h = Reach-IsSafe past in
    let (p, typed, size) = running_job st.phase st job h.in_phase e in
    (p, typed, size ∙ h.same_size ∙ size_by_host cfg.host_attr cfg.image_attr)
