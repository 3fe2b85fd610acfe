-- ===== src/Build/Secrets/Laws.antt =====
-- What the steps on the secrets of a build do to each secret (tui/src/build.rs, steps 2 to 4).
use nixnas.Base.{
  true, false, not, ◌≡◌, refl, ◌∙◌, List, [], ◌∷◌, ◌++◌, Option, none, some, Result, ok, err, Io,
  bind_elim, Bool-cases, inl, inr, ◌&&◌,
}
use nixnas.Base.FilePath.{join}
use nixnas.Base.Utf8.{from_utf8_lossy}
use nixnas.Base.Text.{Text, codes, starts_with, trim}
use nixnas.Build.Steps.{StepState, running, skipped}
use nixnas.Build.Effects.{
  Place, auth_hash, pki, created, hashed, unpacked, decrypted, History, Hashing, Unpacking, Host,
  ask,
}
use nixnas.Build.Effects.Fate.{
  same_place, on_disk, broke, Same, Keeps, Quiet, chain-Quiet, guarded-Quiet, write_secret-Quiet,
  step-Quiet, pure-Quiet, log-Quiet,
}
use nixnas.Build.Secrets.{
  temp, sops_path, hash_path, judged, hash_of, make_hash, with_hash, decoded, decrypt, unpacking,
  unpack, lone, bundle_root, check_bundle, required, open_bundle, restricted, make_dir, with_pki,
}
use nixnas.Stream.{Bytes}
use nixnas.Sudo.Command.{Output}

module _ (host : Host) where
  judged-Keeps : (p : Place) (out : Output) → Keeps p (judged host out)
  unfolding on_disk broke
  judged-Keeps p out = elim (Bool-cases (not out.success)) [
    | inl failed ↦ rw failed (λ t. (refl, refl))
    | inr done ↦ elim (Bool-cases (starts_with (codes "$y$") (trim (from_utf8_lossy out.stdout)))) [
      | inl yescrypt ↦ rw (done, yescrypt) (λ t. (refl, refl))
      | inr other ↦ rw (done, other) (λ t. (refl, refl))
    ]
  ]

  hash_of-Keeps : (p : Place) (h : Hashing) → Keeps p (hash_of host h)
  unfolding on_disk broke
  hash_of-Keeps p Hashing.not_found t = (refl, refl)
  hash_of-Keeps p (Hashing.not_spawned e) t = (refl, refl)
  hash_of-Keeps p (Hashing.no_stdin e) t = (refl, refl)
  hash_of-Keeps p (Hashing.not_fed e) t = (refl, refl)
  hash_of-Keeps p (Hashing.not_waited e) t = (refl, refl)
  hash_of-Keeps p (Hashing.finished out) t = judged-Keeps p out t

  make_hash-Keeps : (p : Place) (passphrase : Bytes) → Keeps p (make_hash host passphrase)
  unfolding on_disk broke
  make_hash-Keeps p passphrase t =
      let (here, whole) = hash_of-Keeps p (host.mkpasswd t passphrase) (hashed passphrase ∷ t) in
      (here, whole)

  pub make_hash-Quiet : {p : Place} (passphrase : Bytes) → Quiet p (make_hash host passphrase)
  make_hash-Quiet passphrase = record { kept = make_hash-Keeps _ passphrase }

  -- The hash of the console does not touch another secret.
  pub with_hash-Quiet :
      {A : Type 0} {p : Place} (passphrase : Bytes) {rest : Io History Text A}
      → same_place p auth_hash ≡ false
      → Quiet p rest
      → Quiet p (with_hash host passphrase rest)
  unfolding with_hash
  with_hash-Quiet {A} {p} passphrase other rest =
      chain-Quiet (chain-Quiet (step-Quiet 2 running) (λ _. make_hash-Quiet passphrase)) (λ hash.
        chain-Quiet
          (write_secret-Quiet auth_hash host (hash_path host) (hash ++ (10 ∷ []))
            (codes "creating temp hash file " ++ hash_path host)
            (codes "writing the auth hash to the temp file") other)
          (λ _.
            guarded-Quiet host auth_hash other
              (chain-Quiet (step-Quiet 2 StepState.ok) (λ _. rest))))

  decoded-Keeps : (p : Place) (path : Text) (out : Output) → Keeps p (decoded host path out)
  unfolding on_disk broke
  decoded-Keeps p path out t = elim (Bool-cases out.success) [
    | inl done ↦ rw done (refl, refl)
    | inr failed ↦ rw failed (refl, refl)
  ]

  decrypt-Keeps : (p : Place) (path : Text) → Keeps p (decrypt host path)
  unfolding on_disk broke
  decrypt-Keeps p path t =
      bind_elim (λ r. Same p t r.1)
        (ask (codes "running sops (is it installed, with the age key available?)")
          (λ h. host.sops h path) (decrypted path ∷ t))
        (decoded host path)
        (λ out e.
          let (here, whole) = decoded-Keeps p path out (decrypted path ∷ t) in (here, whole))
        (λ x e. (refl, refl))

  decrypt-Quiet : {p : Place} (path : Text) → Quiet p (decrypt host path)
  decrypt-Quiet path = record { kept = decrypt-Keeps _ path }

  unpacking-Keeps : (p : Place) (u : Unpacking) → Keeps p (unpacking host u)
  unfolding on_disk broke
  unpacking-Keeps p (Unpacking.not_spawned e) t = (refl, refl)
  unpacking-Keeps p (Unpacking.no_stdin e) t = (refl, refl)
  unpacking-Keeps p (Unpacking.not_fed e) t = (refl, refl)
  unpacking-Keeps p (Unpacking.not_waited e) t = (refl, refl)
  unpacking-Keeps p (Unpacking.exited true) t = (refl, refl)
  unpacking-Keeps p (Unpacking.exited false) t = (refl, refl)

  unpack-Keeps : (p : Place) (dir : Text) (tar : Bytes) → Keeps p (unpack host dir tar)
  unfolding on_disk broke
  unpack-Keeps p dir tar t =
      let (here, whole) = unpacking-Keeps p (host.tar t dir tar) (unpacked tar ∷ t) in (here, whole)

  unpack-Quiet : {p : Place} (dir : Text) (tar : Bytes) → Quiet p (unpack host dir tar)
  unpack-Quiet dir tar = record { kept = unpack-Keeps _ dir tar }

  lone-Keeps : (p : Place) (dir : Text) (entries : List Text) → Keeps p (lone host dir entries)
  unfolding on_disk broke
  lone-Keeps p dir [] t = (refl, refl)
  lone-Keeps p dir (only ∷ []) t =
      elim (Bool-cases (host.is_dir t only && host.is_dir t (join only (codes "keys")))) [
        | inl wraps ↦ rw wraps (refl, refl)
        | inr bare ↦ rw bare (refl, refl)
      ]
  lone-Keeps p dir (_ ∷ _ ∷ _) t = (refl, refl)

  bundle_root-Keeps : (p : Place) (dir : Text) → Keeps p (bundle_root host dir)
  bundle_root-Keeps p dir t = elim (Bool-cases (host.is_dir t (join dir (codes "keys")))) [
    | inl bare ↦ rw bare (refl, refl)
    | inr not_bare ↦ rw not_bare (
        bind_elim (λ r. Same p t r.1)
          (ask (codes "listing the extracted PKI tar") (λ h. host.list h dir) t) (lone host dir)
          (λ entries e. lone-Keeps p dir entries t) (λ x e. (refl, refl)))
  ]

  bundle_root-Quiet : {p : Place} (dir : Text) → Quiet p (bundle_root host dir)
  bundle_root-Quiet dir = record { kept = bundle_root-Keeps _ dir }

  check_bundle-Keeps :
      (p : Place) (path bundle : Text) (names : List Text)
      → Keeps p (check_bundle host path bundle names)
  unfolding check_bundle on_disk broke
  check_bundle-Keeps p path bundle [] t = (refl, refl)
  check_bundle-Keeps p path bundle (name ∷ names) t =
      elim (Bool-cases (host.is_file t (join bundle name))) [
        | inl there ↦ rw there (check_bundle-Keeps p path bundle names t)
        | inr missing ↦ rw missing (refl, refl)
      ]

  check_bundle-Quiet :
      {p : Place} (path bundle : Text) (names : List Text)
      → Quiet p (check_bundle host path bundle names)
  check_bundle-Quiet path bundle names = record { kept = check_bundle-Keeps _ path bundle names }

  pub open_bundle-Quiet : {p : Place} (path dir : Text) → Quiet p (open_bundle host path dir)
  open_bundle-Quiet {p} path dir =
      chain-Quiet
        (chain-Quiet (chain-Quiet (decrypt-Quiet path) (unpack-Quiet dir))
          (λ _. bundle_root-Quiet dir))
        (λ bundle.
          chain-Quiet (check_bundle-Quiet path bundle (required host)) (λ _. pure-Quiet bundle))

  restricted-Keeps :
      (p : Place) (r : Result Text (Unit {0}))
      → same_place p pki ≡ false
      → Keeps p (restricted host r)
  unfolding on_disk broke
  restricted-Keeps p (ok _) other t = (refl, refl)
  restricted-Keeps p (err e) other t = rw other (refl, refl)

  make_dir-Keeps : (p : Place) (dir : Text) → same_place p pki ≡ false → Keeps p (make_dir host dir)
  unfolding on_disk broke
  make_dir-Keeps p dir other t =
      bind_elim (λ r. Same p t r.1) (ask (codes "creating PKI temp dir") (λ h. host.create h dir) t)
        _
        (λ a e.
          let (here, whole) =
            restricted-Keeps p (host.restrict (created pki dir ∷ t) dir) other
              (created pki dir ∷ t) in
          (here ∙ (rw other refl), whole))
        (λ x e. (refl, refl))

  make_dir-Quiet : {p : Place} (dir : Text) → same_place p pki ≡ false → Quiet p (make_dir host dir)
  make_dir-Quiet dir other = record { kept = make_dir-Keeps _ dir other }

  -- The Secure Boot keys do not touch another secret.
  pub with_pki-Quiet :
      {A : Type 0} {p : Place} (base : Text) (sops_file : Option Text)
      {rest : Option Text → Io History Text A}
      → same_place p pki ≡ false
      → ((bundle : Option Text) → Quiet p (rest bundle))
      → Quiet p (with_pki host base sops_file rest)
  unfolding with_pki
  with_pki-Quiet base none other rest =
      chain-Quiet
        (chain-Quiet
          (log-Quiet (
            codes "(no sb_keys_sops configured — lanzaboote will autogenerate keys on first boot)"))
          (λ _. step-Quiet 3 skipped))
        (λ _. rest none)
  with_pki-Quiet {A} {p} base (some sops_file) other rest =
      let dir = temp host (codes "nixnas-sbpki-") in
      chain-Quiet (chain-Quiet (step-Quiet 3 running) (λ _. make_dir-Quiet dir other)) (λ _.
        guarded-Quiet host pki other (
          chain-Quiet (open_bundle-Quiet (sops_path host base sops_file) dir)
            (λ bundle. chain-Quiet (step-Quiet 3 StepState.ok) (λ _. rest (some bundle)))))
