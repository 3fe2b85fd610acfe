-- ===== src/Build/Effects.antt =====
-- What the build pipeline does to the host (tui/src/build.rs), as a list of effects, and the guards that
-- try to remove its secrets when they go out of scope. Texts and bytes are both lists of numbers here.
pub mod Fate
use nixnas.Base.{
  ℕ, Bool, true, false, List, [], ◌∷◌, ◌++◌, Option, none, some, Result, ok, err, Io, bind,
  if◌then◌else◌,
}
use nixnas.Base.Text.{Text, codes}
use nixnas.Build.Steps.{StepState, BuildEvent}
use nixnas.Stream.{Bytes}
use nixnas.Sudo.Command.{Output}

-- The secrets that the pipeline puts in RAM: two files, and the directory of the Secure Boot keys.
pub data Place : Type 0 where
  key auth_hash pki : Place

-- A child whose output goes to the log pane: its program and arguments, its directory, what is set in
-- its environment.
pub record Child : Type 0 where
  pub program : Text
  pub args : List Text
  pub dir : Text
  pub env : List (Text × Text)

pub data Effect : Type 0 where
  event : BuildEvent → Effect
  streamed : Child → Effect
  created : Place → Text → Effect
  filled : Place → Bytes → Effect
  half_filled : Place → Effect
  removed : Place → Effect
  remained : Place → Effect
  hashed : Bytes → Effect
  decrypted : Text → Effect
  unpacked : Bytes → Effect
  made_dir : Text → Effect

-- The effects so far, the latest first.
abbrev pub History : Type 0
History = List Effect

-- What comes of `mkpasswd`.
pub data Hashing : Type 0 where
  not_found : Hashing
  not_spawned no_stdin not_fed not_waited : Text → Hashing
  finished : Output → Hashing

-- What comes of `tar`.
pub data Unpacking : Type 0 where
  not_spawned no_stdin not_fed not_waited : Text → Unpacking
  exited : (success : Bool) → Unpacking

-- What comes of a child whose output is streamed: the lines that it printed.
pub data Streamed : Type 0 where
  not_spawned : Text → Streamed
  not_waited : List Text → Text → Streamed
  exited : List Text → (success : Bool) → Streamed

-- The host answers by what was done before.
pub record Host : Type 0 where
  pub tmp : Text
  pub pid : Text
  pub stream : History → Child → Streamed
  pub create : History → Text → Result Text (Unit {0})
  pub write : History → Text → Bytes → Result Text (Unit {0})
  pub removes : History → Place → Bool
  pub restrict : History → Text → Result Text (Unit {0})
  pub mkpasswd : History → Bytes → Hashing
  pub sops : History → Text → Result Text Output
  pub tar : History → Text → Bytes → Unpacking
  pub is_dir : History → Text → Bool
  pub is_file : History → Text → Bool
  pub list : History → Text → Result Text (List Text)
  pub create_dir_all : History → Text → Result Text (Unit {0})
  pub canonicalize : History → Text → Result Text Text

abbrev pub emit : Effect → Io History Text (Unit {0})
emit e t = (ok tt, e ∷ t)

abbrev pub step : ℕ → StepState → Io History Text (Unit {0})
step i s = emit (event (BuildEvent.step i s))

abbrev pub log : Text → Io History Text (Unit {0})
log s = emit (event (BuildEvent.log s))

-- `with_context`: the chain as `{e:#}` shows it.
abbrev pub in_context : {A : Type 0} → Text → Result Text A → Result Text A
in_context context (ok a) = ok a
in_context context (err e) = err (context ++ (codes ": " ++ e))

abbrev pub ask : {A : Type 0} → Text → (History → Result Text A) → Io History Text A
ask context answer t = (in_context context (answer t), t)

-- The lines of a child, logged.
unfoldable pub log_lines : List Text → History → History
log_lines [] t = t
log_lines (l ∷ ls) t = log_lines ls (event (BuildEvent.log l) ∷ t)

abbrev pub said : Text → Streamed → Io History Text Bool
said what (not_spawned e) t = (err (codes "running " ++ (what ++ (codes ": " ++ e))), t)
said what (not_waited lines e) t =
    (err (codes "waiting for " ++ (what ++ (codes ": " ++ e))), log_lines lines t)
said what (exited lines success) t = (ok success, log_lines lines t)

-- `run_streamed`
unfoldable pub run_streamed : Host → Child → Text → Io History Text Bool
unfolding log_lines
run_streamed host c what t = said what (host.stream t c) (streamed c ∷ t)

-- The removal at the end of `ShredOnDrop` and `ShredDirOnDrop`, of which a failure is ignored. The zeros
-- that are written over the file before it are left aside, as are the failures of that.
abbrev pub drop_secret : Host → Place → History → History
drop_secret host p t = (if host.removes t p then removed p else remained p) ∷ t

-- `ShredOnDrop`, `ShredDirOnDrop`: whatever becomes of the rest of the scope, the secret is dropped
-- after it.
unfoldable pub guarded : {A : Type 0} → Host → Place → Io History Text A → Io History Text A
guarded host p m t = ((m t).0, drop_secret host p (m t).1)

abbrev pub written : Place → Bytes → Text → Result Text (Unit {0}) → Io History Text (Unit {0})
written p bytes writing (ok _) t = (ok tt, filled p bytes ∷ t)
written p bytes writing (err e) t = (err (writing ++ (codes ": " ++ e)), half_filled p ∷ t)

-- A new file with mode 0600, and its contents.
unfoldable pub write_secret : Host → Place → Text → Bytes → Text → Text → Io History Text (Unit {0})
write_secret host p path bytes creating writing t =
    bind (ask creating (λ h. host.create h path) t)
      (λ _ u. let h = created p path ∷ u in written p bytes writing (host.write h path bytes) h)
