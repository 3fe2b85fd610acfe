-- ===== src/Tests/Building.antt =====
-- A build on a host whose memory is full when the passphrase is written (tui/src/build.rs).
use nixnas.Base.{◌≡◌, refl, [], ok, err, false, true}
use nixnas.Base.Text.{codes}
use nixnas.Build.Effects.{key, Host, Hashing, Streamed, Unpacking}
use nixnas.Build.Effects.Fate.{on_disk, broke}
use nixnas.Build.Pipeline.{bytes, run_pipeline}
use nixnas.Build.Pipeline.Leaves.{run_pipeline-leaves}
use nixnas.Config as Config

abbrev full : Host
full = record {
  tmp = codes "/dev/shm";
  pid = codes "7";
  stream = λ t c. Streamed.exited [] true;
  create = λ t p. ok tt;
  write = λ t p bs. err (codes "no space");
  removes = λ t p. true;
  restrict = λ t p. ok tt;
  mkpasswd = λ t bs. Hashing.not_found;
  sops = λ t p. err [];
  tar = λ t p bs. Unpacking.exited false;
  is_dir = λ t p. false;
  is_file = λ t p. false;
  list = λ t p. ok [];
  create_dir_all = λ t p. ok tt;
  canonicalize = λ t p. ok p;
}

left_behind :
    on_disk key
      (run_pipeline full
        (codes "/home/nixnas.toml")
        Config.default
        (codes "secret")
        (bytes 8_000_000_000)
        []).1
    ≡ true
unfolding on_disk run_pipeline
left_behind = refl

run_pipeline-leaves_example :
    let t =
      (run_pipeline full
        (codes "/home/nixnas.toml")
        Config.default
        (codes "secret")
        (bytes 8_000_000_000)
        []).1 in
    on_disk key t ≡ broke key t
run_pipeline-leaves_example =
    run_pipeline-leaves full key (codes "/home/nixnas.toml") Config.default (codes "secret")
      (bytes 8_000_000_000)
