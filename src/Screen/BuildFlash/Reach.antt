-- ===== src/Screen/BuildFlash/Reach.antt =====
-- The BUILD & FLASH screen over any sequence of keys and events (tui/src/ui/buildflash.rs).
use nixnas.Base.{
  ℕ, ◌≡◌, refl, sym, subst, ap, ◌++◌, ◌≤◌, List, Option, none, some, Result, false, is_some, arith,
}
use nixnas.Base.Text.{Text, codes}
use nixnas.Build.Steps.{BuildEvent}
use nixnas.Build.Target.{min_image_bytes}
use nixnas.Config.{Config}
use nixnas.Flash.Disks.{Disk}
use nixnas.Flash.Events.{FlashEvent}
use nixnas.Screen.Key.{KeyCode, Answers, left, Leaves-left}
use nixnas.Screen.Flash.{Job}
use nixnas.Screen.BuildFlash.{BuildFlowScreen, BuildJob, new, refresh_disks}
use nixnas.Screen.BuildFlash.Gates.{IsSafe, FlashesTo, Fits, BigEnough, BuildsFor}
use nixnas.Screen.BuildFlash.Keys.{on_key}
use nixnas.Screen.BuildFlash.Keys.Safe.{on_key-IsSafe_turnkey}
use nixnas.Screen.BuildFlash.Events.{drain_events}
use nixnas.Screen.BuildFlash.Events.Safe.{drain_events-IsSafe, flashing_of, building_of}

pub data Reach (config_path : Text) (cfg : Config) : BuildFlowScreen → Type 0 where
  opened : (disks : Result Text (List Disk)) → Reach config_path cfg (new cfg disks)
  key :
      {st st' : BuildFlowScreen} (o : Answers) (k : KeyCode)
      → Reach config_path cfg st
      → left (on_key config_path cfg o k st) ≡ some st'
      → Reach config_path cfg st'
  drained :
      {st : BuildFlowScreen} (f : Text → ℕ) (human_size : ℕ → Text) (bs : List BuildEvent)
      (fs : List FlashEvent)
      → Reach config_path cfg st
      → Reach config_path cfg (drain_events f human_size bs fs st).0

new-IsSafe : (cfg : Config) (disks : Result Text (List Disk)) → IsSafe (new cfg disks)
unfolding new refresh_disks
new-IsSafe cfg disks = ground arith

Reach-IsSafe : {path : Text} {cfg : Config} {st : BuildFlowScreen} → Reach path cfg st → IsSafe st
Reach-IsSafe {cfg = cfg} (opened disks) = new-IsSafe cfg disks
Reach-IsSafe {path = path} {cfg = cfg} (key {st = st} o k r e) =
    Leaves-left IsSafe _ (on_key-IsSafe_turnkey path cfg o k st (Reach-IsSafe r)) e
Reach-IsSafe (drained {st = st} f human_size bs fs r) =
    drain_events-IsSafe f human_size bs fs st (Reach-IsSafe r)

-- What is known of the job of a running flash.
pub record IsExact (st : BuildFlowScreen) (job : Job) : Type 0 where
  pub name : Text
  pub image : Text
  pub bytes : ℕ
  pub size : ℕ
  pub picked : st.picked ≡ some (name, bytes)
  pub built : st.built ≡ some (image, size)
  pub large : min_image_bytes ≤ bytes
  pub fitting : size ≤ bytes
  pub dev : job.dev ≡ codes "/dev/" ++ name
  pub dev_size : job.dev_size ≡ some bytes
  pub right_image : job.image ≡ image
  pub no_grow : job.grow ≡ false

exact :
    (st : BuildFlowScreen) (job : Job) (picked built : Option (Text × ℕ))
    → st.picked ≡ picked
    → st.built ≡ built
    → BigEnough picked
    → Fits built picked
    → FlashesTo (some job) built picked
    → IsExact st job
exact st job (some (name, bytes)) (some (image, size)) p b large fits (i, d, s, g) = record {
  name = name;
  image = image;
  bytes = bytes;
  size = size;
  picked = p;
  built = b;
  large = large;
  fitting = fits;
  dev = d;
  dev_size = s;
  right_image = i;
  no_grow = g;
}
exact st job none none p b large fits f = absurd large
exact st job none (some _) p b large fits f = absurd large
exact st job (some _) none p b large fits f = absurd fits

-- Whenever a flash runs on the BUILD & FLASH screen, it writes the image that was built to the device
-- that was picked first; the image is not larger than that device, the device is not smaller than the
-- least size of an image, and no grow is asked for.
pub Reach-IsExact :
    {path : Text} {cfg : Config} {st : BuildFlowScreen} (job : Job)
    → Reach path cfg st
    → st.flash_rx ≡ some job
    → IsExact st job
Reach-IsExact {st = st} job r e =
    let (i, b, f, t) = flashing_of st.stage st (ap is_some e) (Reach-IsSafe r) in
    exact st job st.picked st.built refl refl b f (subst (λ q. FlashesTo q st.built st.picked) e t)

sized :
    (job : BuildJob) (picked : Option (Text × ℕ))
    → BuildsFor (some job) picked
    → BigEnough picked
    → (name : Text) × (picked ≡ some (name, job.bytes)) × (min_image_bytes ≤ job.bytes)
sized job (some (name, bytes)) e b = (name, ap (λ n. some (name, n)) (sym e), rw e b)
sized job none e b = absurd b

-- Whenever a build runs on the BUILD & FLASH screen, its image is sized to exactly the size of the device
-- that was picked, which is not smaller than the least size of an image.
pub Reach-builds_exactly :
    {path : Text} {cfg : Config} {st : BuildFlowScreen} (job : BuildJob)
    → Reach path cfg st
    → st.build_rx ≡ some job
    → (name : Text) × (st.picked ≡ some (name, job.bytes)) × (min_image_bytes ≤ job.bytes)
Reach-builds_exactly {st = st} job r e =
    let (f, i, b) = building_of st.stage st (ap is_some e) (Reach-IsSafe r) in
    sized job st.picked (subst (λ q. BuildsFor q st.picked) e f) b
