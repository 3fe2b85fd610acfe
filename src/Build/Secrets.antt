-- ===== src/Build/Secrets.antt =====
-- The secrets of a build (tui/src/build.rs, `run_pipeline`, steps 2 to 4): each is put in RAM, and its
-- guard is there from then on to the end of the pipeline.
pub mod Laws
pub mod Guards
use nixnas.Base.{
  ℕ, not, List, [], ◌∷◌, ◌++◌, Option, none, some, Result, ok, err, Io, bind, ◌>>=◌, ◌>>◌, pure,
  if◌then◌else◌, ◌&&◌,
}
use nixnas.Base.FilePath.{join, file_name, is_absolute}
use nixnas.Base.Utf8.{from_utf8_lossy}
use nixnas.Base.Text.{Text, codes, trim, starts_with}
use nixnas.Build.Steps.{StepState, running, skipped}
use nixnas.Build.Effects.{
  key, auth_hash, pki, created, half_filled, hashed, decrypted, unpacked, History, Hashing,
  not_found, not_spawned, no_stdin, not_fed, not_waited, finished, Unpacking, exited, Host, step,
  log, ask, guarded, write_secret,
}
use nixnas.Stream.{Bytes}
use nixnas.Sudo.Command.{Output}

-- `step(i, StepState::Fail); bail!(…)`
abbrev pub bail : {A : Type 0} → ℕ → Text → Io History Text A
bail i message t = bind (step i StepState.fail t) (λ _ u. (err message, u))

module _ (host : Host) where
  -- `secure_tmp().join(format!("nixnas-…-{}", std::process::id()))`
  abbrev pub temp : Text → Text
  temp name = join host.tmp (name ++ host.pid)

  abbrev pub key_path : Text
  key_path = temp (codes "nixnas-luks-")

  abbrev pub hash_path : Text
  hash_path = temp (codes "nixnas-auth-hash-")

  -- Step 2
  unfoldable pub with_key : {A : Type 0} → Bytes → Io History Text A → Io History Text A
  unfolding write_secret guarded join
  with_key passphrase rest =
      step 1 running
      >> write_secret host key key_path passphrase
          (codes "creating temp passphrase file " ++ key_path)
          (codes "writing passphrase to temp file")
      >> guarded host key (step 1 StepState.ok >> rest)

  abbrev pub judged : Output → Io History Text Text
  judged out =
      let hash = trim (from_utf8_lossy out.stdout) in
      if not out.success
      then bail 2
          (codes "mkpasswd did not produce a yescrypt hash: " ++ trim (from_utf8_lossy out.stderr))
      else if starts_with (codes "$y$") hash
      then pure hash
      else bail 2
          (codes "mkpasswd did not produce a yescrypt hash: " ++ trim (from_utf8_lossy out.stderr))

  abbrev pub hash_of : Hashing → Io History Text Text
  hash_of not_found t =
      bail 2
        (codes
          "mkpasswd not found — it derives the console-login hash from the passphrase (run the TUI via `nix run`, which bundles it, or install the `mkpasswd` package)")
        t
  hash_of (not_spawned e) t = bail 2 (codes "running mkpasswd: " ++ e) t
  hash_of (no_stdin e) t = (err (codes "opening mkpasswd stdin"), t)
  hash_of (not_fed e) t = (err (codes "feeding the passphrase to mkpasswd: " ++ e), t)
  hash_of (not_waited e) t = (err (codes "waiting for mkpasswd: " ++ e), t)
  hash_of (finished out) t = judged out t

  abbrev pub make_hash : Bytes → Io History Text Text
  make_hash passphrase t = hash_of (host.mkpasswd t passphrase) (hashed passphrase ∷ t)

  -- Step 3
  unfoldable pub with_hash : {A : Type 0} → Bytes → Io History Text A → Io History Text A
  unfolding write_secret guarded join trim starts_with
  with_hash passphrase rest = step 2 running >> make_hash passphrase >>= λ hash.
      write_secret host auth_hash hash_path (hash ++ (10 ∷ []))
        (codes "creating temp hash file " ++ hash_path)
        (codes "writing the auth hash to the temp file")
      >> guarded host auth_hash (step 2 StepState.ok >> rest)

  abbrev pub sops_path : Text → Text → Text
  sops_path base sops_file = if is_absolute sops_file then sops_file else join base sops_file

  abbrev pub decoded : Text → Output → Io History Text Bytes
  decoded path out t =
      if out.success
      then (ok out.stdout, t)
      else bail 3
          (codes "sops --decrypt " ++ (path ++ (codes " failed:\n" ++ from_utf8_lossy out.stderr)))
          t

  abbrev pub decrypt : Text → Io History Text Bytes
  decrypt path =
      (λ t.
        ask (codes "running sops (is it installed, with the age key available?)")
          (λ h. host.sops h path) (decrypted path ∷ t))
      >>= decoded path

  abbrev pub unpacking : Unpacking → Io History Text (Unit {0})
  unpacking (Unpacking.not_spawned e) t = (err (codes "running tar: " ++ e), t)
  unpacking (Unpacking.no_stdin e) t = (err (codes "opening tar stdin"), t)
  unpacking (Unpacking.not_fed e) t = (err (codes "streaming PKI tar to tar: " ++ e), t)
  unpacking (Unpacking.not_waited e) t = (err (codes "waiting for tar: " ++ e), t)
  unpacking (exited success) t =
      if success then (ok tt, t) else bail 3 (codes "extracting the Secure Boot PKI tar failed") t

  abbrev pub unpack : Text → Bytes → Io History Text (Unit {0})
  unpack dir tar t = unpacking (host.tar t dir tar) (unpacked tar ∷ t)

  -- A lone wrapper directory with the keys in it is the root of the bundle.
  abbrev pub lone : Text → List Text → Io History Text Text
  lone dir (only ∷ []) t =
      if host.is_dir t only && host.is_dir t (join only (codes "keys"))
      then bind
          (log
            (codes "(PKI tar wraps its bundle in "
              ++ (file_name only ++ codes "/ — using that as the bundle root)"))
            t)
          (λ _ u. (ok only, u))
      else (ok dir, t)
  lone dir _ t = (ok dir, t)

  abbrev pub bundle_root : Text → Io History Text Text
  bundle_root dir t =
      if host.is_dir t (join dir (codes "keys"))
      then (ok dir, t)
      else bind (ask (codes "listing the extracted PKI tar") (λ h. host.list h dir) t) (lone dir)

  abbrev pub required : List Text
  required =
      codes "keys/PK/PK.pem"
      ∷ codes "keys/PK/PK.key"
      ∷ codes "keys/KEK/KEK.pem"
      ∷ codes "keys/KEK/KEK.key"
      ∷ codes "keys/db/db.pem"
      ∷ codes "keys/db/db.key"
      ∷ []

  unfoldable pub check_bundle : Text → Text → List Text → Io History Text (Unit {0})
  unfolding join
  check_bundle path bundle [] t = (ok tt, t)
  check_bundle path bundle (name ∷ names) t =
      let rest = check_bundle path bundle names t in
      if host.is_file t (join bundle name)
      then rest
      else bail 3
          (codes "Secure Boot PKI bundle from "
            ++ (path
                ++ (codes " is missing "
                    ++ (name
                        ++ codes
                            " — expected the sbctl layout (keys/{PK,KEK,db}/*.pem+*.key) at the tar root or inside one wrapper directory"))))
          t

  abbrev pub open_bundle : Text → Text → Io History Text Text
  open_bundle path dir = decrypt path >>= unpack dir >> bundle_root dir >>= λ bundle.
      check_bundle path bundle required >> pure bundle

  abbrev pub restricted : Result Text (Unit {0}) → Io History Text (Unit {0})
  restricted (ok _) t = (ok tt, t)
  restricted (err e) t = (err (codes "restricting PKI temp dir: " ++ e), half_filled pki ∷ t)

  -- The directory of the keys: one that cannot be restricted to its owner stays, still empty.
  abbrev pub make_dir : Text → Io History Text (Unit {0})
  make_dir dir t =
      bind (ask (codes "creating PKI temp dir") (λ h. host.create h dir) t)
        (λ _ u. restricted (host.restrict (created pki dir ∷ u) dir) (created pki dir ∷ u))

  -- Step 4
  unfoldable pub with_pki :
      {A : Type 0} → Text → Option Text → (Option Text → Io History Text A) → Io History Text A
  unfolding check_bundle guarded join file_name
  with_pki base none rest =
      log (codes "(no sb_keys_sops configured — lanzaboote will autogenerate keys on first boot)")
      >> step 3 skipped
      >> rest none
  with_pki base (some sops_file) rest =
      let dir = temp (codes "nixnas-sbpki-") in
      step 3 running
      >> make_dir dir
      >> guarded host pki (
          open_bundle (sops_path base sops_file) dir >>= λ bundle.
          step 3 StepState.ok >> rest (some bundle))
