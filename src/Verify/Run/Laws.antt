-- ===== src/Verify/Run/Laws.antt =====
-- What a verification that passes has found (tui/src/verify.rs, `run_verify`).
use nixnas.Base.{
  ℕ, ◌≤◌, ◌≡◌, refl, Bool, true, false, ltb, List, [], ◌∷◌, Option, none, some, is_empty, Result,
  ok, err, Io, bind, bind_elim, bind_inside, arith, Bool-cases, min, inl, inr,
}
use nixnas.Base.Text.{Text}
use nixnas.Stream.{Bytes, IoError, SeekFrom, from_start, from_end, pos, Read, IsStream, IsSeekable}
use nixnas.Verify.Hash.{Hasher, sha256_range, compare_loop}
use nixnas.Build.Steps.{running}
use nixnas.Verify.Events.{step}
use nixnas.Verify.Layout.{GptPart, Volume}
use nixnas.Verify.Steps.{VerifyError, Run, Reference, send, check_gpt, check_boot, check_luks}
use nixnas.Verify.Layout.Laws.{append-empty, issue_if-empty}
use nixnas.Verify.Steps.Laws.{
  Sound, Boots, Table, check_gpt-Sound, BootsAt, check_boot-Sound, LuksAt, check_luks-Sound,
}
use nixnas.Verify.Run.{
  Target, image, device, check_image, show_digest, compared, check_device, sized_image,
  opened_image, check_target, verdict, run_verify,
}
use nixnas.Verify.Window.{SliceCursor, new}

no-issues : (issues : List Text) → is_empty issues ≡ true → issues ≡ []
no-issues [] e = refl
no-issues (x ∷ xs) e = cc e

module _ {S T H : Type 0} (human_size : ℕ → Text) (seek : SeekFrom → Io S IoError ℕ) (read : Read S)
    (clone : S → Result IoError S) (open_gpt : S → Result Text (List (Result Text GptPart)) × S)
    (open_fat : SliceCursor S → Result Text Volume × S) (hasher : Hasher H) (read_image : Read T)
    (Good : S → Type 0) (rest : S → Bytes) (stream : IsStream read Good rest) (content : Bytes)
    (seekable : IsSeekable seek Good rest content)
    (gpt_keeps : (s : S) → Good s → Good (open_gpt s).1)
    (fat_keeps : (s : S) (start len : ℕ) → Good s → Good (open_fat (new s start len)).1) where
  -- A run that ends well has no issue left, and had none before.
  abbrev Clean : {A : Type 0} → Run S → Result VerifyError A × Run S → Type 0
  Clean {A} r0 (r, r1) = (a : A) → r ≡ ok a → r1.issues ≡ [] → r0.issues ≡ []

  -- The image that a device was compared with is not longer than the device.
  pub record ImageFits (ref : Reference T) (n : ℕ) : Type 0 where
    pub img_len : ℕ
    pub has_size : ref.size ≡ ok img_len
    pub not_longer : img_len ≤ n

  abbrev Fits : Target human_size seek read clone open_gpt open_fat hasher read_image → ℕ → Type 0
  Fits image n = Unit
  Fits (device skip none) n = Unit
  Fits (device skip (some ref)) n = ImageFits ref n

  show_digest-Clean :
      (o : Option Text) (r : Run S)
      → Clean r (show_digest human_size seek read clone open_gpt open_fat hasher read_image o r)
  show_digest-Clean none r a e i = i
  show_digest-Clean (some t) r a e i = i

  check_image-Clean :
      (n : ℕ) (r : Run S)
      → Clean r (check_image human_size seek read clone open_gpt open_fat hasher read_image n r)
  unfolding check_image
  check_image-Clean n r =
      bind_inside (Clean r) _ _ (sha256_range hasher seek read n (λ _. false) _) _
        (λ o e. show_digest-Clean o _) (λ x e a e'. cc)

  compared-Clean :
      (n len : ℕ) (o : Option (H × H)) (r : Run S)
      → Clean r (compared human_size seek read clone open_gpt open_fat hasher read_image n len o r)
  compared-Clean n len none r a e i = i
  compared-Clean n len (some (hd, hi)) r a e i = (append-empty r.issues _ i).0

  opened_image-Clean :
      (skip : ℕ → Bool) (n len : ℕ) (o : Result IoError T) (r : Run S)
      → Clean r (
          opened_image human_size seek read clone open_gpt open_fat hasher read_image skip n len o
            r)
  opened_image-Clean skip n len (err x) r = λ a e. cc
  opened_image-Clean skip n len (ok t) r =
      bind_inside (Clean r) _ _ (seek (from_start 0) r.file) _
        (λ q e.
          bind_inside (Clean r) _ _
            (compare_loop hasher seek read read_image skip (min len n) 0 (min len n) hasher.new
              hasher.new _)
            _ (λ o e'. compared-Clean n len o _) (λ x e' a e''. cc))
        (λ x e a e'. cc)

  sized_image-Fits :
      (skip : ℕ → Bool) (n : ℕ) (size : Result IoError ℕ) (opened : Result IoError T) (r : Run S)
      (a : Unit {0})
      → let (out, r1) =
          sized_image human_size seek read clone open_gpt open_fat hasher read_image skip n size
            opened r in
        out ≡ ok a → r1.issues ≡ [] → (r.issues ≡ []) × (len : ℕ) × (size ≡ ok len) × (len ≤ n)
  sized_image-Fits skip n (err x) opened r a e i = cc e
  sized_image-Fits skip n (ok len) opened r a e i =
      let (before, short) =
        append-empty r.issues _ (opened_image-Clean skip n len opened _ a e i) in
      let fits : ltb n len ≡ false = issue_if-empty _ _ short in (before, len, refl, ground arith)

  check_target-Fits :
      (target : Target human_size seek read clone open_gpt open_fat hasher read_image) (n : ℕ)
      (r : Run S) (a : Unit {0})
      → let (out, r1) =
          check_target human_size seek read clone open_gpt open_fat hasher read_image target n r in
        out ≡ ok a → r1.issues ≡ [] → (r.issues ≡ []) × Fits target n
  unfolding check_device
  check_target-Fits image n r a e i = (check_image-Clean n r a e i, tt)
  check_target-Fits (device skip none) n r a e i = (i, tt)
  check_target-Fits (device skip (some ref)) n r a e i =
      let (before, len, same, fits) =
        sized_image-Fits skip n ref.size ref.opened (send (step 4 running) r) a e i in
      (before, record { img_len = len; has_size = same; not_longer = fits })

  -- A run that gives a value started without issues.
  abbrev Passes : {A : Type 0} → Type 0 → Run S → Result VerifyError A × Run S → Type 0
  Passes {A} F r0 (r, r1) = (a : A) → r ≡ ok a → (r0.issues ≡ []) × F

  bind-Passes :
      {A B : Type 0} (F : A → Type 0) (G : Type 0) (r0 : Run S) (p : Result VerifyError A × Run S)
      (f : A → Io (Run S) VerifyError B)
      → Sound human_size seek read clone open_gpt open_fat Good rest stream content seekable
          gpt_keeps fat_keeps F r0 p
      → ((a : A) (q : Run S) → Good q.file → Passes (F a → G) q (f a q))
      → Passes G r0 (bind p f)
  bind-Passes F G r0 (ok a, q) f first then b e =
      let (good, found) = first a refl in
      let (clean, gives) = then a q good b e in
      let (before, has) = found clean in (before, gives has)
  bind-Passes F G r0 (err x, q) f first then b e = cc e

  verdict-Passes :
      (target : Target human_size seek read clone open_gpt open_fat hasher read_image) (r : Run S)
      (said : Text)
      → (verdict human_size seek read clone open_gpt open_fat hasher read_image target r).0
        ≡ ok said
      → r.issues ≡ []
  verdict-Passes target r said e = elim (Bool-cases (is_empty r.issues)) [
    | inl empty ↦ no-issues r.issues empty
    | inr more ↦ let never = rw more at e in cc never
  ]

  last-Passes :
      (target : Target human_size seek read clone open_gpt open_fat hasher read_image) (n : ℕ)
      (r : Run S)
      → Passes (Fits target n) r (
          bind
            (check_target human_size seek read clone open_gpt open_fat hasher read_image target n r)
            (λ _. verdict human_size seek read clone open_gpt open_fat hasher read_image target))
  last-Passes target n r =
      bind_elim (Passes (Fits target n) r)
        (check_target human_size seek read clone open_gpt open_fat hasher read_image target n r) _
        (λ a e said e'. check_target-Fits target n r a e (
          verdict-Passes target
            (check_target human_size seek read clone open_gpt open_fat hasher read_image target n
              r).1
            said e'))
        (λ x e said e'. cc e')

  -- A target of length `n` has the layout that the source checks for.
  pub record HasLayout
      (target : Target human_size seek read clone open_gpt open_fat hasher read_image) (n : ℕ)
      : Type 0 where
    pub esp : ℕ × ℕ
    pub store : ℕ × ℕ
    pub table :
        Table human_size seek read clone open_gpt open_fat Good rest stream content seekable
          gpt_keeps fat_keeps
          (some esp, some store)
    pub boots :
        Boots human_size seek read clone open_gpt open_fat Good rest stream content seekable
          gpt_keeps fat_keeps esp.0 esp.1
    pub luks :
        LuksAt human_size seek read clone open_gpt open_fat Good rest stream content seekable
          gpt_keeps fat_keeps
          (some store)
    pub fits : Fits target n

  laid_out :
      (target : Target human_size seek read clone open_gpt open_fat hasher read_image) (n : ℕ)
      (esp store : Option (ℕ × ℕ))
      → Table human_size seek read clone open_gpt open_fat Good rest stream content seekable
          gpt_keeps fat_keeps
          (esp, store)
      → BootsAt human_size seek read clone open_gpt open_fat Good rest stream content seekable
          gpt_keeps fat_keeps esp
      → LuksAt human_size seek read clone open_gpt open_fat Good rest stream content seekable
          gpt_keeps fat_keeps store
      → Fits target n
      → HasLayout target n
  laid_out target n none store table boots luks fits =
      let never = table.partitions.esp_range in cc never
  laid_out target n (some esp) none table boots luks fits =
      let never = table.partitions.store_range in cc never
  laid_out target n (some esp) (some store) table boots luks fits = record {
    esp = esp;
    store = store;
    table = table;
    boots = boots;
    luks = luks;
    fits = fits;
  }

  checks-Pass :
      (target : Target human_size seek read clone open_gpt open_fat hasher read_image) (n : ℕ)
      (r : Run S)
      → Good r.file
      → Passes (HasLayout target n) r (
          bind (check_gpt human_size seek read clone open_gpt open_fat r) (λ ranges q.
            bind (check_boot human_size seek read clone open_gpt open_fat ranges.0 q) (λ _ u.
              bind (check_luks human_size seek read clone open_gpt open_fat ranges.1 u) (λ _ v.
                bind
                  (check_target human_size seek read clone open_gpt open_fat hasher read_image
                    target n v)
                  (λ _.
                    verdict human_size seek read clone open_gpt open_fat hasher read_image
                      target)))))
  checks-Pass target n r g =
      bind-Passes _ (HasLayout target n) r _ _
        (check_gpt-Sound human_size seek read clone open_gpt open_fat Good rest stream content
          seekable gpt_keeps fat_keeps r g)
        (λ ranges q q_good.
          bind-Passes
            (λ _.
              BootsAt human_size seek read clone open_gpt open_fat Good rest stream content seekable
                gpt_keeps fat_keeps ranges.0)
            (Table human_size seek read clone open_gpt open_fat Good rest stream content seekable
                gpt_keeps fat_keeps ranges
              → HasLayout target n)
            q _ _
            (check_boot-Sound human_size seek read clone open_gpt open_fat Good rest stream content
              seekable gpt_keeps fat_keeps ranges.0 q q_good)
            (λ _ u u_good.
              bind-Passes
                (λ _.
                  LuksAt human_size seek read clone open_gpt open_fat Good rest stream content
                    seekable gpt_keeps fat_keeps ranges.1)
                _ u _ _
                (check_luks-Sound human_size seek read clone open_gpt open_fat Good rest stream
                  content seekable gpt_keeps fat_keeps ranges.1 u u_good)
                (λ _ v v_good a ok_a.
                  let (clean, fits) = last-Passes target n v a ok_a in
                  (
                    clean,
                    λ luks boots table. laid_out target n ranges.0 ranges.1 table boots luks fits,
                  ))))

  -- A verification of a seekable file that passes, where the GPT and FAT libraries leave the handle
  -- usable, has read a GPT with two partitions, one of them the ESP and one not; mounted a FAT
  -- volume in the ESP that has the file BOOTX64.EFI in EFI/BOOT (in whatever case) or the directory
  -- EFI/systemd, and in EFI/Linux a file whose name ends in .efi (in whatever case); found the eight
  -- bytes of the magic and the version of LUKS2 at the start of the store (where its offset is below
  -- 2^64); and compared a device only with an image that is not longer.
  pub run_verify-HasLayout :
      (target : Target human_size seek read clone open_gpt open_fat hasher read_image) (file : S)
      (said : Text)
      → Good file
      → (run_verify human_size seek read clone open_gpt open_fat hasher read_image target file).0
        ≡ ok said
      → (n : ℕ) × ((seek (from_end (pos 0)) file).0 ≡ ok n) × HasLayout target n
  unfolding run_verify
  run_verify-HasLayout target file said g =
      bind_inside
        (λ p.
          p.0 ≡ ok said → (n : ℕ) × ((seek (from_end (pos 0)) file).0 ≡ ok n) × HasLayout target n)
        _ _ (seek (from_end (pos 0)) file) _
        (λ n e e'.
          let (_, layout) =
            checks-Pass target n
              (record { file = (seek (from_end (pos 0)) file).1; sent = []; issues = [] })
              (seekable.keeps (from_end (pos 0)) file g) said e' in
          (n, e, layout))
        (λ x e e'. cc e')
