-- ===== src/Tests/Application.antt =====
-- A run of the program: a setting is saved, a build is started and fails, and the program is left (tui/src/main.rs,
-- tui/src/ui/home.rs, tui/src/ui/build.rs).
use nixnas.Base.{
  ℕ, ◌≡◌, refl, Bool, true, false, List, [], ◌∷◌, Option, none, some, is_empty, Result, ok,
}
use nixnas.Base.Text.{Text, codes}
use nixnas.Build.Pipeline.{fixed}
use nixnas.Build.Steps.{BuildEvent}
use nixnas.Config.{default, missing, load}
use nixnas.Log.Session as Log
use nixnas.Screen.App.{App, new, Sent, drain_all}
use nixnas.Screen.Build as Build
use nixnas.Screen.Build.Safe as BuildSafe
use nixnas.Screen.Configure.{ConfigureState, from_config, to_config, save_form}
use nixnas.Screen.Configure.Browse.{Places}
use nixnas.Screen.Configure.Laws.{Keeps, save_form-Keeps, to_config-from_config}
use nixnas.Screen.Home as Home
use nixnas.Screen.Home.Safe.{IsSpared, on_key-IsSpared}
use nixnas.Screen.Key.{KeyCode, enter, esc, up, down, char, left}
use nixnas.Screen.Main.{Outside, on_key}
use nixnas.Screen.Runs.{Runs, started, frame, pressed, exit-restores, Runs-HoldsFile, writable}
use nixnas.Tests.Logging.{answers, earlier}
use nixnas.Tests.Screens.{host}

abbrev or_same : Build.BuildScreen → Option Build.BuildScreen → Build.BuildScreen
or_same st none = st
or_same st (some s) = s

abbrev press : KeyCode → Build.BuildScreen → Build.BuildScreen
press k st = or_same st (left (Build.on_key host k st))

abbrev typed : Build.BuildScreen
typed = press (char b'x') (press enter (press (char b'x') (Build.new default)))

abbrev job : Build.Job
job = record { passphrase = codes "x"; size = fixed }

reached : BuildSafe.Reach default (press enter typed)
unfolding Build.on_key Build.new
reached =
    BuildSafe.key host enter
      (BuildSafe.key host (char b'x')
        (BuildSafe.key host enter (BuildSafe.key host (char b'x') BuildSafe.opened refl) refl) refl)
      refl

Reach-Builds_example :
    ((press enter typed).phase ≡ Build.running)
    × (is_empty job.passphrase ≡ false)
    × (job.size ≡ fixed)
unfolding Build.on_key Build.new
Reach-Builds_example = BuildSafe.Reach-Builds job reached refl

abbrev places : Places
places = record {
  list = λ p. [];
  is_dir = λ p. false;
  is_file = λ p. false;
  canonicalize = λ p. none;
  lower = λ t. t;
  is_control = λ c. false;
}

abbrev outside : Outside
outside = record {
  answers = host;
  log = answers;
  stamp = codes "1";
  found = Result.err [];
  configuring = record {
    places = places;
    stored = missing;
    writes = true;
    torn = missing;
    shown = λ e. [];
  };
}

abbrev first : App
first =
    new (codes "/home/nixnas.toml") missing default
      (record { log = Log.new (some (codes "/logs")); disk = earlier })

abbrev pressing : KeyCode → App → App
pressing k app = on_key outside false k app

abbrev by :
    {app : App} (k : KeyCode)
    → Runs earlier app
    → (on_key outside false k app).quit ≡ false
    → Runs earlier (pressing k app)
by k past e = pressed outside false k past e

-- CONFIGURE is opened, the name of a host typed and saved, and left.
abbrev configured : App
configured = pressing esc (
    pressing (char b's') (
      pressing enter
        (pressing (char b'n') (pressing enter (pressing up (pressing up (pressing enter first)))))))

-- Then a build is started, and finished by an error; back at HOME the program is to be left.
abbrev building : App
building = pressing enter (
    pressing (char b'x') (
      pressing enter
        (pressing (char b'x') (pressing enter (pressing down (pressing down configured))))))

abbrev sent : Sent
sent = record {
  built = [];
  flashed = [];
  build = BuildEvent.done (Result.err (codes "no nix")) ∷ [];
  flash = [];
  verify = [];
}

abbrev asked : App
asked = pressing (char b'q') (pressing esc (drain_all host answers sent building))

runs_configured : Runs earlier configured
unfolding on_key load
runs_configured =
    by esc
      (by (char b's')
        (by enter
          (by (char b'n')
            (by enter
              (by up
                (by up
                  (by enter
                    (started (codes "/home/nixnas.toml") missing default (some (codes "/logs"))
                      refl)
                    refl)
                  refl)
                refl)
              refl)
            refl)
          refl)
        refl)
      refl

runs_building : Runs earlier building
unfolding on_key
runs_building =
    by enter
      (by (char b'x')
        (by enter
          (by (char b'x') (by enter (by down (by down runs_configured refl) refl) refl) refl) refl)
        refl)
      refl

runs_asked : Runs earlier asked
unfolding on_key drain_all
runs_asked = by (char b'q') (by esc (frame host answers sent runs_building) refl) refl

exit-restores_example :
    let app' = on_key outside false enter asked in
    (app'.quit ≡ true) × (app'.session.disk ≡ earlier)
unfolding on_key drain_all
exit-restores_example = exit-restores outside runs_asked refl refl (λ p. refl)

Runs-HoldsFile_example : load asked.file ≡ ok asked.cfg
unfolding on_key drain_all writable runs_asked runs_building runs_configured
Runs-HoldsFile_example = Runs-HoldsFile runs_asked refl

host_was_saved : asked.cfg.host_attr ≡ some (codes "n")
unfolding on_key drain_all
host_was_saved = refl

on_key-IsSpared_example :
    IsSpared building (Home.on_key host answers (codes "1") (Result.err []) enter building)
on_key-IsSpared_example = on_key-IsSpared host answers (codes "1") (Result.err []) enter building

-- The settings of a form that was opened on the defaults, and a number typed into its last field.
abbrev form : ConfigureState
form = record (from_config default false) {
  values = codes "." ∷ [] ∷ codes "imageScript" ∷ [] ∷ codes "4096" ∷ [];
}

save_form-Keeps_example :
    Keeps default missing (save_form (codes "/home/nixnas.toml") default outside.configuring form)
save_form-Keeps_example =
    save_form-Keeps (codes "/home/nixnas.toml") default outside.configuring form

to_config-from_config_example : to_config (from_config default true) ≡ ok default
unfolding nixnas.Base.Text.trim
to_config-from_config_example = to_config-from_config default true (record {
  flake_dir = (refl, refl);
  image_attr = (refl, refl);
  sb_keys_sops = tt;
  host_attr = tt;
  memory = tt;
})
