-- ===== src/Build/Pipeline/Leaves.antt =====
-- What a build leaves of its secrets (tui/src/build.rs, `run_pipeline`).
use nixnas.Base.{
  ℕ, Bool, true, false, ◌≡◌, refl, [], ◌++◌, Option, none, some, find, ◌>>◌, if◌then◌else◌,
}
use nixnas.Base.FilePath.{has_extension}
use nixnas.Base.Text.{Text, codes}
use nixnas.Build.Steps.{StepState, running}
use nixnas.Build.Effects.{Place, key, auth_hash, pki, Child, Host, step}
use nixnas.Build.Effects.Fate.{
  same_place, on_disk, broke, Keeps, Quiet, Tidy, chain-Quiet, chain-Tidy, step-Quiet, log-Quiet,
  ask-Quiet, run_streamed-Quiet,
}
use nixnas.Build.Secrets.{bail}
use nixnas.Build.Secrets.Laws.{with_hash-Quiet, with_pki-Quiet}
use nixnas.Build.Secrets.Guards.{
  with_key-Tidy_other, with_hash-Tidy_other, with_key-Tidy, with_hash-Tidy, with_pki-Tidy,
}
use nixnas.Build.Pipeline.{
  SizeOverride, override_expr, nix_build, script_link, out_dir, evaluate, make_out_dir, script,
  run_script, found, find_raw, run_pipeline,
}
use nixnas.Config.{Config, config_dir, resolved_flake_dir}
use nixnas.Stream.{Bytes}

module _ (host : Host) where
  step_or_bail-Keeps :
      (p : Place) (i : ℕ) (message : Text) (b : Bool)
      → Keeps p (if b then step i StepState.ok else bail i message)
  unfolding on_disk broke
  step_or_bail-Keeps p i message true t = (refl, refl)
  step_or_bail-Keeps p i message false t = (refl, refl)

  step_or_bail-Quiet :
      {p : Place} (i : ℕ) (message : Text) (b : Bool)
      → Quiet p (if b then step i StepState.ok else bail i message)
  step_or_bail-Quiet i message b = record { kept = step_or_bail-Keeps _ i message b }

  evaluate-Quiet : {p : Place} (build : Text × Child) → Quiet p (evaluate host build)
  unfolding evaluate
  evaluate-Quiet build =
      chain-Quiet
        (chain-Quiet (chain-Quiet (step-Quiet 0 running) (λ _. log-Quiet build.0))
          (λ _. run_streamed-Quiet host build.1 (codes "`nix build` (is Nix installed locally?)")))
        (step_or_bail-Quiet 0 (codes "the image build (nix build) failed"))

  make_out_dir-Quiet : {p : Place} (dir : Text) → Quiet p (make_out_dir host dir)
  unfolding on_disk broke
  make_out_dir-Quiet dir = record { kept = λ t. (refl, refl) }

  run_script-Quiet :
      {p : Place} (base : Text) (memory : Option ℕ) (bundle : Option Text)
      → Quiet p (run_script host base memory bundle)
  unfolding run_script
  run_script-Quiet base memory bundle =
      chain-Quiet
        (chain-Quiet (chain-Quiet (step-Quiet 4 running) (λ _. make_out_dir-Quiet (out_dir base)))
          (λ _.
            ask-Quiet (codes "resolving image script")
              (λ h. host.canonicalize h (script_link base))))
        (λ program.
          chain-Quiet
            (run_streamed-Quiet host (script host base memory program bundle)
              (codes "the disko image script"))
            (step_or_bail-Quiet 4 (codes "image build failed")))

  found-Keeps : (p : Place) (o : Option Text) → Keeps p (found host o)
  unfolding on_disk broke
  found-Keeps p none t = (refl, refl)
  found-Keeps p (some raw) t = (refl, refl)

  found-Quiet : {p : Place} (o : Option Text) → Quiet p (found host o)
  found-Quiet o = record { kept = found-Keeps _ o }

  find_raw-Quiet : {p : Place} (dir : Text) → Quiet p (find_raw host dir)
  unfolding find_raw
  find_raw-Quiet dir =
      chain-Quiet
        (chain-Quiet (step-Quiet 5 running)
          (λ _. ask-Quiet (codes "reading built image dir " ++ dir) (λ h. host.list h dir)))
        (λ entries. found-Quiet (find (has_extension (codes "raw")) entries))

  image-Quiet :
      {p : Place} (base : Text) (memory : Option ℕ) (bundle : Option Text)
      → Quiet p (run_script host base memory bundle >> find_raw host (out_dir base))
  image-Quiet base memory bundle =
      chain-Quiet (run_script-Quiet base memory bundle) (λ _. find_raw-Quiet (out_dir base))

  run_pipeline-Tidy :
      (p : Place) (config_path : Text) (cfg : Config) (passphrase : Bytes) (size : SizeOverride)
      → Tidy p (run_pipeline host config_path cfg passphrase size)
  unfolding run_pipeline same_place
  run_pipeline-Tidy key config_path cfg passphrase size =
      let base = config_dir config_path in
      let build =
        nix_build (resolved_flake_dir cfg config_path) (script_link base) cfg.image_attr
          (override_expr size cfg.host_attr) in
      chain-Tidy (evaluate-Quiet build) (λ _. with_key-Tidy host passphrase (
        with_hash-Quiet host passphrase refl
          (with_pki-Quiet host base cfg.sb_keys_sops refl (image-Quiet base cfg.build_memory_mib))))
  run_pipeline-Tidy auth_hash config_path cfg passphrase size =
      let base = config_dir config_path in
      let build =
        nix_build (resolved_flake_dir cfg config_path) (script_link base) cfg.image_attr
          (override_expr size cfg.host_attr) in
      chain-Tidy (evaluate-Quiet build) (λ _. with_key-Tidy_other host passphrase refl (
        with_hash-Tidy host passphrase
          (with_pki-Quiet host base cfg.sb_keys_sops refl (image-Quiet base cfg.build_memory_mib))))
  run_pipeline-Tidy pki config_path cfg passphrase size =
      let base = config_dir config_path in
      let build =
        nix_build (resolved_flake_dir cfg config_path) (script_link base) cfg.image_attr
          (override_expr size cfg.host_attr) in
      chain-Tidy (evaluate-Quiet build) (λ _. with_key-Tidy_other host passphrase refl (
        with_hash-Tidy_other host passphrase refl
          (with_pki-Tidy host base cfg.sb_keys_sops (image-Quiet base cfg.build_memory_mib))))

  -- Whatever the host answers, and however the build ends: of the passphrase file, the file with its
  -- hash and the directory of the Secure Boot keys, each is on disk afterwards exactly if it was
  -- created and then its writing (of the directory: its restriction to the owner) or its removal
  -- failed.
  pub run_pipeline-leaves :
      (p : Place) (config_path : Text) (cfg : Config) (passphrase : Bytes) (size : SizeOverride)
      → let t = (run_pipeline host config_path cfg passphrase size []).1 in on_disk p t ≡ broke p t
  unfolding on_disk broke
  run_pipeline-leaves p config_path cfg passphrase size =
      (run_pipeline-Tidy p config_path cfg passphrase size).ends [] refl refl
