-- ===== src/Build/Secrets/Guards.antt =====
-- What the guards of a build leave of their secrets (tui/src/build.rs, steps 2 to 4).
use nixnas.Base.{
  false, ◌≡◌, refl, sym, ◌∙◌, [], ◌∷◌, ◌++◌, Option, none, some, Result, ok, err, Io, bind, ◌>>◌,
}
use nixnas.Base.Text.{Text, codes}
use nixnas.Build.Steps.{StepState, running, skipped}
use nixnas.Build.Effects.{Place, key, auth_hash, pki, created, History, Host, in_context, guarded}
use nixnas.Build.Effects.Fate.{
  same_place, guarded-Tidy, write_secret-Quiet, on_disk, broke, Keeps, Quiet, Tidy, Quiet-Tidy,
  chain-Quiet, chain-Tidy, rest-Ends, half_filled-Ends, write_secret-Tidy, step-Quiet, log-Quiet,
}
use nixnas.Build.Secrets.Laws.{make_hash-Quiet, open_bundle-Quiet}
use nixnas.Build.Secrets.{
  temp, sops_path, key_path, hash_path, with_key, with_hash, restricted, make_dir, with_pki,
}
use nixnas.Stream.{Bytes}

module _ (host : Host) where
  -- The passphrase stays exactly if it lingers.
  pub with_key-Tidy :
      {A : Type 0} (passphrase : Bytes) {rest : Io History Text A}
      → Quiet key rest
      → Tidy key (with_key host passphrase rest)
  unfolding with_key
  with_key-Tidy passphrase rest = chain-Tidy (step-Quiet 1 running) (λ _.
      write_secret-Tidy host (key_path host) passphrase
        (codes "creating temp passphrase file " ++ key_path host)
        (codes "writing passphrase to temp file")
        (chain-Quiet (step-Quiet 1 StepState.ok) (λ _. rest)))

  -- And so does the hash of the console.
  pub with_hash-Tidy :
      {A : Type 0} (passphrase : Bytes) {rest : Io History Text A}
      → Quiet auth_hash rest
      → Tidy auth_hash (with_hash host passphrase rest)
  unfolding with_hash
  with_hash-Tidy passphrase rest =
      chain-Tidy (chain-Quiet (step-Quiet 2 running) (λ _. make_hash-Quiet host passphrase))
        (λ hash.
          write_secret-Tidy host (hash_path host) (hash ++ (10 ∷ []))
            (codes "creating temp hash file " ++ hash_path host)
            (codes "writing the auth hash to the temp file")
            (chain-Quiet (step-Quiet 2 StepState.ok) (λ _. rest)))

  restricted-Ends :
      {A : Type 0} (dir : Text) (m : Io History Text A) (r : Result Text (Unit {0})) (t : History)
      → Keeps pki m
      → broke pki t ≡ false
      → let q = bind (restricted host r (created pki dir ∷ t)) (λ _. guarded host pki m) in
        on_disk pki q.1 ≡ broke pki q.1
  unfolding on_disk broke
  restricted-Ends dir m (ok _) t kept fine =
      rest-Ends host pki m (created pki dir ∷ t) kept refl fine
  restricted-Ends dir m (err e) t kept fine = half_filled-Ends pki dir t

  make_dir-Tidy :
      {A : Type 0} (dir : Text) {m : Io History Text A}
      → Quiet pki m
      → Tidy pki (make_dir host dir >> guarded host pki m)
  make_dir-Tidy dir {m} rest = record {
    ends = λ t away fine. created-Ends t away fine (host.create t dir);
  }
    where
      created-Ends :
          (t : History)
          → on_disk pki t ≡ false
          → broke pki t ≡ false
          → (c : Result Text (Unit {0}))
          → let q =
              bind
                (bind
                  (in_context (codes "creating PKI temp dir") c, t)
                  (λ _ u.
                    restricted host
                      (host.restrict (created pki dir ∷ u) dir)
                      (created pki dir ∷ u)))
                (λ _. guarded host pki m) in
            on_disk pki q.1 ≡ broke pki q.1
      created-Ends t away fine (ok _) =
          restricted-Ends dir m (host.restrict (created pki dir ∷ t) dir) t rest.kept fine
      created-Ends t away fine (err e) = away ∙ sym fine

  -- The directory of the keys stays exactly if it could not be restricted, or not removed.
  pub with_pki-Tidy :
      {A : Type 0} (base : Text) (sops_file : Option Text) {rest : Option Text → Io History Text A}
      → ((bundle : Option Text) → Quiet pki (rest bundle))
      → Tidy pki (with_pki host base sops_file rest)
  unfolding with_pki
  with_pki-Tidy base none rest =
      chain-Tidy
        (chain-Quiet
          (log-Quiet (
            codes "(no sb_keys_sops configured — lanzaboote will autogenerate keys on first boot)"))
          (λ _. step-Quiet 3 skipped))
        (λ _. Quiet-Tidy (rest none))
  with_pki-Tidy base (some sops_file) rest =
      let dir = temp host (codes "nixnas-sbpki-") in
      chain-Tidy (step-Quiet 3 running) (λ _. make_dir-Tidy dir (
        chain-Quiet (open_bundle-Quiet host (sops_path host base sops_file) dir)
          (λ bundle. chain-Quiet (step-Quiet 3 StepState.ok) (λ _. rest (some bundle)))))

  -- The guard of one secret leaves the others to the rest of its scope.
  pub with_key-Tidy_other :
      {A : Type 0} {p : Place} (passphrase : Bytes) {rest : Io History Text A}
      → same_place p key ≡ false
      → Tidy p rest
      → Tidy p (with_key host passphrase rest)
  unfolding with_key
  with_key-Tidy_other passphrase other rest =
      chain-Tidy
        (chain-Quiet (step-Quiet 1 running) (λ _.
          write_secret-Quiet key host (key_path host) passphrase
            (codes "creating temp passphrase file " ++ key_path host)
            (codes "writing passphrase to temp file") other))
        (λ _. guarded-Tidy host key other (chain-Tidy (step-Quiet 1 StepState.ok) (λ _. rest)))

  pub with_hash-Tidy_other :
      {A : Type 0} {p : Place} (passphrase : Bytes) {rest : Io History Text A}
      → same_place p auth_hash ≡ false
      → Tidy p rest
      → Tidy p (with_hash host passphrase rest)
  unfolding with_hash
  with_hash-Tidy_other passphrase other rest =
      chain-Tidy (chain-Quiet (step-Quiet 2 running) (λ _. make_hash-Quiet host passphrase))
        (λ hash.
          chain-Tidy
            (write_secret-Quiet auth_hash host (hash_path host) (hash ++ (10 ∷ []))
              (codes "creating temp hash file " ++ hash_path host)
              (codes "writing the auth hash to the temp file") other)
            (λ _.
              guarded-Tidy host auth_hash other
                (chain-Tidy (step-Quiet 2 StepState.ok) (λ _. rest))))
