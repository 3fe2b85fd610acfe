-- ===== src/Build/Effects/Fate.antt =====
-- What becomes of a build's secrets along its effects (tui/src/build.rs).
use nixnas.Base.{
  ℕ, Bool, true, false, ◌||◌, ◌≡◌, refl, sym, ◌∙◌, List, [], ◌∷◌, Result, ok, err, Io, bind,
  bind_elim, if_elim, ◌>>=◌, ◌>>◌, pure, if◌then◌else◌,
}
use nixnas.Base.Text.{Text}
use nixnas.Build.Steps.{BuildEvent, StepState}
use nixnas.Build.Effects.{
  step, log, Place, key, auth_hash, pki, Child, Effect, event, streamed, created, half_filled,
  filled, removed, remained, History, Streamed, Host, in_context, log_lines, said, run_streamed,
  guarded, written, write_secret, ask,
}
use nixnas.Stream.{Bytes}

unfoldable pub same_place : Place → Place → Bool
same_place key key = true
same_place auth_hash auth_hash = true
same_place pki pki = true
same_place _ _ = false

abbrev on_disk_after : Place → Effect → Bool → Bool
on_disk_after p (created q _) before = same_place p q || before
on_disk_after p (removed q) before = if same_place p q then false else before
on_disk_after p _ before = before

-- A secret is on disk from its creation to its removal.
unfoldable pub on_disk : Place → History → Bool
unfolding same_place
on_disk p [] = false
on_disk p (e ∷ t) = on_disk_after p e (on_disk p t)

abbrev broke_after : Place → Effect → Bool → Bool
broke_after p (half_filled q) before = same_place p q || before
broke_after p (remained q) before = same_place p q || before
broke_after p _ before = before

-- A secret was created, and then writing it, restricting it or removing it failed.
unfoldable pub broke : Place → History → Bool
unfolding same_place
broke p [] = false
broke p (e ∷ t) = broke_after p e (broke p t)

-- Nothing becomes of the secret.
abbrev pub Same : Place → History → History → Type 0
Same p t u = (on_disk p u ≡ on_disk p t) × (broke p u ≡ broke p t)

abbrev pub Keeps : {A : Type 0} → Place → Io History Text A → Type 0
Keeps p m = (t : History) → Same p t (m t).1

-- A secret that was not there before stays exactly if it broke.
abbrev pub Ends : {A : Type 0} → Place → Io History Text A → Type 0
Ends p m =
    (t : History) → on_disk p t ≡ false → broke p t ≡ false → on_disk p (m t).1 ≡ broke p (m t).1

-- The same as types that say which computation they are about.
pub record Quiet {A : Type 0} (p : Place) (m : Io History Text A) : Type 0 where
  pub kept : Keeps p m

pub record Tidy {A : Type 0} (p : Place) (m : Io History Text A) : Type 0 where
  pub ends : Ends p m

module _ {A B : Type 0} {p : Place} {m : Io History Text A} {f : A → Io History Text B} where
  pub chain-Quiet : Quiet p m → ((a : A) → Quiet p (f a)) → Quiet p (m >>= f)
  chain-Quiet first next = record {
    kept = λ t.
        bind_elim (λ r. Same p t r.1) (m t) f
          (λ a e.
            let (here, whole) = (next a).kept (m t).1 in
            (here ∙ (first.kept t).0, whole ∙ (first.kept t).1))
          (λ x e. first.kept t);
  }

  pub chain-Tidy : Quiet p m → ((a : A) → Tidy p (f a)) → Tidy p (m >>= f)
  chain-Tidy first next = record {
    ends = λ t away fine.
        let (here, whole) = first.kept t in
        bind_elim (λ r. on_disk p r.1 ≡ broke p r.1) (m t) f
          (λ a e. (next a).ends (m t).1 (here ∙ away) (whole ∙ fine))
          (λ x e. here ∙ away ∙ sym (whole ∙ fine));
  }

pub Quiet-Tidy : {A : Type 0} {p : Place} {m : Io History Text A} → Quiet p m → Tidy p m
Quiet-Tidy rest = record {
  ends = λ t away fine. let (here, whole) = rest.kept t in here ∙ away ∙ sym (whole ∙ fine);
}

-- A guard of one secret does not touch another.
pub guarded-Quiet :
    {A : Type 0} {p : Place} {m : Io History Text A} (host : Host) (q : Place)
    → same_place p q ≡ false
    → Quiet p m
    → Quiet p (guarded host q m)
unfolding guarded on_disk broke
guarded-Quiet {p} {m} host q other rest = record {
  kept = λ t.
      let (here, whole) = rest.kept t in
      if_elim (λ e. Same p t (e ∷ (m t).1)) (host.removes (m t).1 q) (λ _. (rw other here, whole))
        (λ _. (here, rw other whole));
}

pub guarded-Tidy :
    {A : Type 0} {p : Place} {m : Io History Text A} (host : Host) (q : Place)
    → same_place p q ≡ false
    → Tidy p m
    → Tidy p (guarded host q m)
unfolding guarded on_disk broke
guarded-Tidy {p} {m} host q other rest = record {
  ends = λ t away fine.
      let stays = rest.ends t away fine in
      if_elim (λ e. on_disk p (e ∷ (m t).1) ≡ broke p (e ∷ (m t).1)) (host.removes (m t).1 q)
        (λ _. rw other stays) (λ _. rw other stays);
}

log_lines-Keeps : (p : Place) (lines : List Text) (t : History) → Same p t (log_lines lines t)
unfolding log_lines on_disk broke
log_lines-Keeps p [] t = (refl, refl)
log_lines-Keeps p (l ∷ lines) t =
    let (here, whole) = log_lines-Keeps p lines (event (BuildEvent.log l) ∷ t) in (here, whole)

said-Keeps : (p : Place) (what : Text) (s : Streamed) → Keeps p (said what s)
unfolding on_disk broke
said-Keeps p what (Streamed.not_spawned e) t = (refl, refl)
said-Keeps p what (Streamed.not_waited lines e) t = log_lines-Keeps p lines t
said-Keeps p what (Streamed.exited lines success) t = log_lines-Keeps p lines t

pub run_streamed-Quiet :
    {p : Place} (host : Host) (c : Child) (what : Text) → Quiet p (run_streamed host c what)
unfolding run_streamed on_disk broke
run_streamed-Quiet {p} host c what = record {
  kept = λ t.
      let (here, whole) = said-Keeps p what (host.stream t c) (streamed c ∷ t) in (here, whole);
}

pub same_place_refl : (p : Place) → same_place p p ≡ true
unfolding same_place
same_place_refl key = refl
same_place_refl auth_hash = refl
same_place_refl pki = refl

-- The rest of a scope under its guard leaves the secret exactly if its removal fails.
pub rest-Ends :
    {A : Type 0} (host : Host) (p : Place) (m : Io History Text A) (t : History)
    → Keeps p m
    → on_disk p t ≡ true
    → broke p t ≡ false
    → on_disk p (guarded host p m t).1 ≡ broke p (guarded host p m t).1
unfolding guarded on_disk broke
rest-Ends host p m t kept there fine =
    if_elim (λ e. on_disk p (e ∷ (m t).1) ≡ broke p (e ∷ (m t).1)) (host.removes (m t).1 p)
      (λ _. rw (same_place_refl p) (sym ((kept t).1 ∙ fine)))
      (λ _. rw (same_place_refl p) ((kept t).0 ∙ there))

-- What broke is left.
pub half_filled-Ends :
    (p : Place) (path : Text) (t : History)
    → on_disk p (half_filled p ∷ created p path ∷ t) ≡ broke p (half_filled p ∷ created p path ∷ t)
unfolding on_disk broke
half_filled-Ends p path t = rw (same_place_refl p) refl

written-Ends :
    {A : Type 0} (host : Host) (p : Place) (bytes : Bytes) (path writing : Text)
    (m : Io History Text A) (w : Result Text (Unit {0})) (t : History)
    → Keeps p m
    → broke p t ≡ false
    → let r = bind (written p bytes writing w (created p path ∷ t)) (λ _. guarded host p m) in
      on_disk p r.1 ≡ broke p r.1
unfolding on_disk broke
written-Ends host p bytes path writing m (ok _) t kept fine =
    rest-Ends host p m (filled p bytes ∷ created p path ∷ t) kept (rw (same_place_refl p) refl) fine
written-Ends host p bytes path writing m (err e) t kept fine = half_filled-Ends p path t

-- A secret that is written, and guarded from then on.
pub write_secret-Tidy :
    {A : Type 0} {p : Place} {m : Io History Text A} (host : Host) (path : Text) (bytes : Bytes)
    (creating writing : Text)
    → Quiet p m
    → Tidy p (write_secret host p path bytes creating writing >> guarded host p m)
unfolding write_secret
write_secret-Tidy {A} {p} {m} host path bytes creating writing rest = record {
  ends = λ t away fine. created-Ends t away fine (host.create t path);
}
  where
    created-Ends :
        (t : History)
        → on_disk p t ≡ false
        → broke p t ≡ false
        → (c : Result Text (Unit {0}))
        → let r =
            bind
              (bind
                (in_context creating c, t)
                (λ _ u.
                  written p bytes writing
                    (host.write (created p path ∷ u) path bytes)
                    (created p path ∷ u)))
              (λ _. guarded host p m) in
          on_disk p r.1 ≡ broke p r.1
    created-Ends t away fine (ok _) =
        written-Ends host p bytes path writing m (host.write (created p path ∷ t) path bytes) t
          rest.kept fine
    created-Ends t away fine (err e) = away ∙ sym fine

written-Keeps :
    (p q : Place) (bytes : Bytes) (path writing : Text) (w : Result Text (Unit {0})) (t : History)
    → same_place p q ≡ false
    → Same p t (written q bytes writing w (created q path ∷ t)).1
unfolding on_disk broke
written-Keeps p q bytes path writing (ok _) t other = rw other (refl, refl)
written-Keeps p q bytes path writing (err e) t other = rw other (refl, refl)

-- The writing of one secret does not touch another.
pub write_secret-Quiet :
    {p : Place} (q : Place) (host : Host) (path : Text) (bytes : Bytes) (creating writing : Text)
    → same_place p q ≡ false
    → Quiet p (write_secret host q path bytes creating writing)
unfolding write_secret
write_secret-Quiet {p} q host path bytes creating writing other = record {
  kept = λ t.
      bind_elim (λ r. Same p t r.1) (ask creating (λ h. host.create h path) t) _
        (λ a e. written-Keeps p q bytes path writing _ t other) (λ x e. (refl, refl));
}

pub step-Quiet : {p : Place} (i : ℕ) (s : StepState) → Quiet p (step i s)
unfolding on_disk broke
step-Quiet i s = record { kept = λ t. (refl, refl) }

pub log-Quiet : {p : Place} (s : Text) → Quiet p (log s)
unfolding on_disk broke
log-Quiet s = record { kept = λ t. (refl, refl) }

pub ask-Quiet :
    {A : Type 0} {p : Place} (context : Text) (f : History → Result Text A)
    → Quiet p (ask context f)
ask-Quiet context f = record { kept = λ t. (refl, refl) }

pub pure-Quiet : {A : Type 0} {p : Place} (a : A) → Quiet p (pure a)
pure-Quiet a = record { kept = λ t. (refl, refl) }
