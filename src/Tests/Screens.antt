-- ===== src/Tests/Screens.antt =====
-- Runs of the FLASH and BUILD & FLASH screens from their opening to a running worker.
use nixnas.Base.{ℕ, ◌≡◌, refl, [], ◌∷◌, Option, none, some, true, false, List, Result, ok, err, ◌≤◌}
use nixnas.Base.Text.{Text, codes}
use nixnas.Flash.Disks.{Disk}
use nixnas.Sudo.Command.{Elevation, spawn_not_found}
use nixnas.Screen.Key.{KeyCode, enter, char, Answers, left}
use nixnas.Screen.Flash.{Job, FlashScreen, new, on_key}
use nixnas.Screen.Flash.Reach.{Reach, opened, key, IsAuthorised, Reach-IsAuthorised}

abbrev pub path : Text
path = codes "nixnas.config"

abbrev pub sda : Disk
sda = record {
  name = codes "sda";
  size = some 8_000_000_000;
  tran = some (codes "usb");
  removable = true;
  model = none;
  parts = [];
}

-- A host on which the tool runs as root, with one stick.
abbrev pub host : Answers
host = record {
  disks = ok (sda ∷ []);
  is_root = true;
  sudo_on_path = false;
  sudo = λ _. spawn_not_found;
  log_file = none;
  device_bytes = λ _. some 8_000_000_000;
  file_size = λ _. 8_000_000_000;
  yazi = false;
  human_size = λ _. [];
}

abbrev or_same : FlashScreen → Option FlashScreen → FlashScreen
or_same st none = st
or_same st (some s) = s

abbrev press : KeyCode → FlashScreen → FlashScreen
press k st = or_same st (left (on_key path host k st))

abbrev s0 : FlashScreen
s0 = new (ok (codes "nas.raw", 4_500_000_000)) host.disks

abbrev s1 : FlashScreen
s1 = press enter s0

abbrev s2 : FlashScreen
s2 = press enter s1

abbrev s3 : FlashScreen
s3 = press (char b'n') s2

abbrev s4 : FlashScreen
s4 = press enter s3

abbrev s5 : FlashScreen
s5 = press (char b's') s4

abbrev s6 : FlashScreen
s6 = press (char b'd') s5

abbrev s7 : FlashScreen
s7 = press (char b'a') s6

abbrev s8 : FlashScreen
s8 = press enter s7

abbrev job : Job
job = record {
  image = codes "nas.raw";
  dev = codes "/dev/sda";
  dev_size = some 8_000_000_000;
  backup_to = none;
  grow = true;
  store_pass = none;
  elev = Elevation.root;
}

abbrev past : List FlashScreen
past = s7 ∷ s6 ∷ s5 ∷ s4 ∷ s3 ∷ s2 ∷ s1 ∷ s0 ∷ []

-- Enter three times, n, Enter, the name, Enter.
reached : Reach path past s8
unfolding new on_key nixnas.Base.Text.text_eq nixnas.Base.Text.trim nixnas.Sudo.Command.preflight
    nixnas.Screen.Flash.arm
reached =
    key host enter
      (key host (char b'a')
        (key host (char b'd')
          (key host (char b's')
            (key host enter
              (key host (char b'n')
                (key host enter
                  (key host enter (opened (ok (codes "nas.raw", 4_500_000_000)) host.disks) refl)
                  refl)
                refl)
              refl)
            refl)
          refl)
        refl)
      refl

Reach-IsAuthorised_example : IsAuthorised past s8 job
unfolding new on_key nixnas.Base.Text.text_eq nixnas.Base.Text.trim nixnas.Sudo.Command.preflight
    nixnas.Screen.Flash.arm
Reach-IsAuthorised_example = Reach-IsAuthorised job reached refl
