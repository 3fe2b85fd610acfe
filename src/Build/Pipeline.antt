-- ===== src/Build/Pipeline.antt =====
-- The build pipeline (tui/src/build.rs, `run_pipeline`): the image script is evaluated, the secrets are
-- put in RAM, the script is run with them, and the image is looked up.
pub mod Leaves
use nixnas.Base.{
  ℕ, Bool, true, false, List, [], ◌∷◌, ◌++◌, Option, none, some, find, Result, ok, err, Io, bind,
  ◌>>=◌, ◌>>◌, pure, if◌then◌else◌,
}
use nixnas.Base.FilePath.{join, has_extension}
use nixnas.Base.Text.{Text, codes, decimal}
use nixnas.Build.Steps.{StepState, running}
use nixnas.Build.Effects.{
  Child, Effect, streamed, made_dir, History, Host, step, log, ask, run_streamed,
}
use nixnas.Build.Secrets.{bail, key_path, hash_path, with_key, with_hash, with_pki}
use nixnas.Config.{Config, config_dir, resolved_flake_dir}
use nixnas.Stream.{Bytes}

-- How the image is sized.
pub data SizeOverride : Type 0 where
  fixed : SizeOverride
  gib bytes : ℕ → SizeOverride

-- The host to extend, the option to set, and what is built.
abbrev pub override_expr : SizeOverride → Option Text → Option (Text × Text × Text)
override_expr (gib n) (some host) = some (
  host,
  codes "nixnas.boot.usb.imageSizeGiB = lib.mkForce " ++ (decimal n ++ codes ";"),
  codes "minimal reusable image: " ++ (decimal n ++ codes " GiB"),
)
override_expr (bytes b) (some host) = some (
  host,
  codes "nixnas.boot.usb.imageSize = lib.mkForce \"" ++ (decimal b ++ codes "\";"),
  codes "exact-fit image: " ++ (decimal b ++ codes " bytes"),
)
override_expr _ _ = none

abbrev pub expr : Text → Text → Text
expr host assign =
    codes "let f = builtins.getFlake (toString ./.); in (f.nixosConfigurations."
    ++ (host
        ++ (codes ".extendModules { modules = [ ({ lib, ... }: { "
            ++ (assign ++ codes " }) ]; }).config.system.build.diskoImagesScript")))

-- The paths of a run.
abbrev pub script_link : Text → Text
script_link base = join base (codes ".nixnas-imagescript")

abbrev pub out_dir : Text → Text
out_dir base = join base (codes ".nixnas-image")

abbrev nix : Text → List Text → Child
nix dir args = record { program = codes "nix"; args = args; dir = dir; env = [] }

-- The line that is logged, and the child.
abbrev pub nix_build : Text → Text → Text → Option (Text × Text × Text) → Text × Child
nix_build flake_dir link image_attr (some (host, assign, what)) = (
  codes ">> building the "
      ++ (what ++ (codes " (host " ++ (host ++ codes ", size-overridden via extendModules)"))),
  nix flake_dir (
      codes "build"
      ∷ codes "--impure"
      ∷ codes "--print-build-logs"
      ∷ codes "--accept-flake-config"
      ∷ codes "--out-link"
      ∷ link
      ∷ codes "--expr"
      ∷ expr host assign
      ∷ []),
)
nix_build flake_dir link image_attr none = (
  codes ">> building the stick image from .#" ++ image_attr,
  nix flake_dir (
      codes "build"
      ∷ codes "--print-build-logs"
      ∷ codes "--accept-flake-config"
      ∷ (codes ".#" ++ image_attr)
      ∷ codes "--out-link"
      ∷ link
      ∷ []),
)

abbrev memory_args : Option ℕ → List Text
memory_args none = []
memory_args (some mem) = codes "--build-memory" ∷ decimal mem ∷ []

abbrev pki_args : Option Text → List Text
pki_args none = []
pki_args (some pki) = codes "--post-format-files" ∷ pki ∷ codes "/nix/lanzaboote/pki" ∷ []

module _ (host : Host) where
  -- Step 1
  unfoldable pub evaluate : Text × Child → Io History Text (Unit {0})
  unfolding run_streamed
  evaluate build =
      step 0 running
      >> log build.0
      >> run_streamed host build.1 (codes "`nix build` (is Nix installed locally?)")
      >>= λ success.
          if success
          then step 0 StepState.ok
          else bail 0 (codes "the image build (nix build) failed")

  -- The image script with the secrets that it injects.
  unfoldable pub script : Text → Option ℕ → Text → Option Text → Child
  unfolding join decimal
  script base memory program pki = record {
    program = program;
    args =
        memory_args memory
        ++ (codes "--pre-format-files"
            ∷ key_path host
            ∷ codes "/tmp/nixnas-luks.key"
            ∷ codes "--post-format-files"
            ∷ hash_path host
            ∷ codes "/nix/nixnas/auth/passphrase.hash"
            ∷ pki_args pki);
    dir = out_dir base;
    env = (codes "enableParallelBuilding", codes "1") ∷ (codes "NIX_BUILD_CORES", codes "0") ∷ [];
  }

  abbrev pub make_out_dir : Text → Io History Text (Unit {0})
  make_out_dir dir t =
      ask (codes "creating image output dir") (λ h. host.create_dir_all h dir) (made_dir dir ∷ t)

  -- Step 5
  unfoldable pub run_script : Text → Option ℕ → Option Text → Io History Text (Unit {0})
  unfolding run_streamed script
  run_script base memory pki =
      step 4 running
      >> make_out_dir (out_dir base)
      >> ask (codes "resolving image script") (λ h. host.canonicalize h (script_link base))
      >>= λ program.
          run_streamed host (script base memory program pki) (codes "the disko image script")
          >>= λ success.
              if success then step 4 StepState.ok else bail 4 (codes "image build failed")

  abbrev pub found : Option Text → Io History Text Text
  found none t = bail 5 (codes "no .raw file in the image output dir") t
  found (some raw) t =
      bind (step 5 StepState.ok t)
        (λ _ u. bind (log (codes ">> built image: " ++ raw) u) (λ _ v. (ok raw, v)))

  -- Step 6
  unfoldable pub find_raw : Text → Io History Text Text
  unfolding has_extension
  find_raw dir =
      step 5 running
      >> ask (codes "reading built image dir " ++ dir) (λ h. host.list h dir)
      >>= λ entries. found (find (has_extension (codes "raw")) entries)

  -- `run_pipeline`
  unfoldable pub run_pipeline : Text → Config → Bytes → SizeOverride → Io History Text Text
  unfolding evaluate with_key with_hash with_pki run_script find_raw config_dir resolved_flake_dir
  run_pipeline config_path cfg passphrase size =
      let base = config_dir config_path in
      evaluate (
        nix_build (resolved_flake_dir cfg config_path) (script_link base) cfg.image_attr
          (override_expr size cfg.host_attr))
      >> with_key host passphrase (
          with_hash host passphrase (
            with_pki host base cfg.sb_keys_sops
              (λ pki. run_script base cfg.build_memory_mib pki >> find_raw (out_dir base))))
