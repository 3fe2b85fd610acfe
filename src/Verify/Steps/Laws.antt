-- ===== src/Verify/Steps/Laws.antt =====
-- What each step of a verification has found when it leaves no issue (tui/src/verify.rs).
use nixnas.Base.{
  ℕ, ◌^◌, ◌<◌, ◌≡◌, refl, sym, ap, ◌∙◌, subst, List, [], ◌∷◌, ◌++◌, Option, none, some, take, drop,
  map, Result, ok, err, Io, bind, bind_inside, arith, take-append, take_all,
}
use nixnas.Base.Text.{Text}
use nixnas.Stream.{Bytes, IoError, SeekFrom, from_start, Read, IsStream, IsSeekable}
use nixnas.Verify.Hash.{read_exact}
use nixnas.Verify.Hash.Laws.{read_exact-Reads}
use nixnas.Verify.Layout.{GptPart, Volume, gpt_issues}
use nixnas.Verify.Layout.Laws.{
  append-empty, issue_if-empty, not-false, HasPartitions, gpt_issues-HasPartitions, HasLoader,
  boot_issues-HasLoader, HasKernel, uki_issues-HasKernel, is_luks2-bytes,
}
use nixnas.Verify.Steps.{
  VerifyError, Run, send, judged, show_rows, opened_gpt, cloned, check_gpt, mounted, check_boot,
  check_luks, luks_lines,
}
use nixnas.Verify.Events.{step}
use nixnas.Build.Steps.{running}
use nixnas.Verify.Window.{SliceCursor, new}

module _ {S : Type 0} (human_size : ℕ → Text) (seek : SeekFrom → Io S IoError ℕ) (read : Read S)
    (clone : S → Result IoError S) (open_gpt : S → Result Text (List (Result Text GptPart)) × S)
    (open_fat : SliceCursor S → Result Text Volume × S) (Good : S → Type 0) (rest : S → Bytes)
    (stream : IsStream read Good rest) (content : Bytes)
    (seekable : IsSeekable seek Good rest content)
    (gpt_keeps : (s : S) → Good s → Good (open_gpt s).1)
    (fat_keeps : (s : S) (start len : ℕ) → Good s → Good (open_fat (new s start len)).1) where
  -- A step that succeeds keeps the handle good; and when no issue is there after it, none was before, and
  -- what it found holds of its result.
  abbrev pub Sound : {A : Type 0} → (A → Type 0) → Run S → Result VerifyError A × Run S → Type 0
  Sound {A} F r0 (r, r1) =
      (a : A) → r ≡ ok a → Good r1.file × (r1.issues ≡ [] → (r0.issues ≡ []) × F a)

  pub bind-Sound :
      {A B : Type 0} (F : A → Type 0) (G : B → Type 0) (r0 : Run S)
      (p : Result VerifyError A × Run S) (f : A → Io (Run S) VerifyError B)
      → Sound F r0 p
      → ((a : A) (q : Run S) → Good q.file → Sound (λ b. F a → G b) q (f a q))
      → Sound G r0 (bind p f)
  bind-Sound F G r0 (ok a, q) f first then b e =
      let (good, found) = first a refl in
      let (good', found') = then a q good b e in
      (good', λ i. ((found (found' i).0).0, (found' i).1 (found (found' i).0).1))
  bind-Sound F G r0 (err x, q) f first then b e = cc e

  show_rows-Sound :
      (rows : List (Result Text GptPart)) (r0 : Run S)
      → Good r0.file
      → Sound
          (λ used. rows ≡ map ok used)
          r0
          (show_rows human_size seek read clone open_gpt open_fat rows r0)
  unfolding show_rows
  show_rows-Sound [] r0 g = λ a e. (g, λ i. (i, ap (map ok) (let same : [] ≡ a = cc e in same)))
  show_rows-Sound (err x ∷ rows) r0 g = λ a e. cc e
  show_rows-Sound (ok p ∷ rows) r0 g =
      bind-Sound (λ used. rows ≡ map ok used) (λ used. ok p ∷ rows ≡ map ok used) r0 _ _
        (show_rows-Sound rows _ g)
        (λ used q good a e. (
          good,
          λ i. (
            i,
            λ same. ap (λ x. ok p ∷ x) same ∙ ap (map ok) (let cut : p ∷ used ≡ a = cc e in cut),
          ),
        ))

  -- Without issues, what was judged had none.
  judged-Sound :
      {A : Type 0} (F : A → Type 0) (i : ℕ) (found : List Text) (r0 r : Run S) (b : A)
      → Good r.file
      → r.issues ≡ r0.issues
      → (found ≡ [] → F b)
      → Sound F r0 (ok b, judged i found r)
  judged-Sound F i found r0 r b g same holds a e =
      let cut : b ≡ a = cc e in
      (
        g,
        λ none_left.
            let (before, now) = append-empty r.issues found none_left in
            (sym same ∙ before, subst F cut (holds now)),
      )

  -- The table that was read, and the byte ranges of its partitions.
  pub record Table (ranges : Option (ℕ × ℕ) × Option (ℕ × ℕ)) : Type 0 where
    pub handle : S
    pub used : List GptPart
    pub lists : (open_gpt handle).0 ≡ ok (map ok used)
    pub partitions : HasPartitions used ranges

  opened_gpt-Sound :
      (o : Result Text (List (Result Text GptPart))) (s : S) (r : Run S)
      → (open_gpt s).0 ≡ o
      → Good r.file
      → Sound Table r (opened_gpt human_size seek read clone open_gpt open_fat o r)
  opened_gpt-Sound (ok rows) s r e g = λ a e'.
      bind-Sound (λ used. rows ≡ map ok used) Table r _ _ (show_rows-Sound rows r g)
        (λ used q good.
          judged-Sound (λ ranges. rows ≡ map ok used → Table ranges) 0 (gpt_issues used) q q _ good
            refl
            (λ empty same. record {
              handle = s;
              used = used;
              lists = e ∙ ap ok same;
              partitions = gpt_issues-HasPartitions used empty;
            }))
        a e'
  opened_gpt-Sound (err x) s r e g =
      λ a e'. (g, λ none_left. let never = (append-empty r.issues _ none_left).1 in cc never)

  cloned-Sound :
      {B : Type 0} (G : B → Type 0) (c : Result IoError S) (r0 r : Run S)
      (k : Unit {0} → Io (Run S) VerifyError B)
      → Sound G r0 (k tt r)
      → Sound G r0 (bind (cloned human_size seek read clone open_gpt open_fat c r) k)
  cloned-Sound G (ok _) r0 r k then = then
  cloned-Sound G (err x) r0 r k then = λ a e. cc e

  pub check_gpt-Sound :
      (r : Run S)
      → Good r.file
      → Sound Table r (check_gpt human_size seek read clone open_gpt open_fat r)
  unfolding check_gpt
  check_gpt-Sound r g = cloned-Sound Table (clone r.file) r (send (step 0 running) r) _ (
      opened_gpt-Sound (open_gpt r.file).0 r.file
        (record (send (step 0 running) r) { file = (open_gpt r.file).1 }) refl (gpt_keeps r.file g))

  -- The FAT volume that was mounted at a range, if there is one.
  pub record Boots (start len : ℕ) : Type 0 where
    pub handle : S
    pub volume : Volume
    pub mounts : (open_fat (new handle start len)).0 ≡ ok volume
    pub loader : HasLoader volume
    pub kernel : HasKernel volume

  abbrev pub BootsAt : Option (ℕ × ℕ) → Type 0
  BootsAt none = Unit
  BootsAt (some (start, len)) = Boots start len

  mounted-Sound :
      (o : Result Text Volume) (s : S) (start len : ℕ) (r : Run S)
      → (open_fat (new s start len)).0 ≡ o
      → Good r.file
      → Sound
          (λ _. Boots start len)
          r
          (ok tt, mounted human_size seek read clone open_gpt open_fat o r)
  mounted-Sound (ok volume) s start len r e g a e' = (
    g,
    λ none_left.
        let (before, kernels) = append-empty _ _ none_left in
        let (start_issues, loader) = append-empty r.issues _ before in
        (
          start_issues,
          record {
            handle = s;
            volume = volume;
            mounts = e;
            loader = boot_issues-HasLoader volume loader;
            kernel = uki_issues-HasKernel volume kernels;
          },
        ),
  )
  mounted-Sound (err x) s start len r e g a e' =
      (g, λ none_left. let never = (append-empty r.issues _ none_left).1 in cc never)

  pub check_boot-Sound :
      (range : Option (ℕ × ℕ)) (r : Run S)
      → Good r.file
      → Sound
          (λ _. BootsAt range)
          r
          (check_boot human_size seek read clone open_gpt open_fat range r)
  unfolding check_boot
  check_boot-Sound none r g = λ a e. (g, λ i. (i, tt))
  check_boot-Sound (some (start, len)) r g =
      cloned-Sound (λ _. Boots start len) (clone r.file) r (send (step 1 running) r) _
        (mounted-Sound (open_fat (new r.file start len)).0 r.file start len _ refl
          (fat_keeps r.file start len g))

  -- At a range lies a LUKS2 header: its magic "LUKS\xba\xbe", and the number 2 in two bytes.
  abbrev pub LuksAt : Option (ℕ × ℕ) → Type 0
  LuksAt none = Unit
  LuksAt (some (start, _)) =
      start < 2 ^ 64 → take 8 (drop start content) ≡ 76 ∷ 85 ∷ 75 ∷ 83 ∷ 186 ∷ 190 ∷ 0 ∷ 2 ∷ []

  pub check_luks-Sound :
      (range : Option (ℕ × ℕ)) (r : Run S)
      → Good r.file
      → Sound
          (λ _. LuksAt range)
          r
          (check_luks human_size seek read clone open_gpt open_fat range r)
  unfolding check_luks
  check_luks-Sound none r g = λ a e. (g, λ i. (i, tt))
  check_luks-Sound (some (start, len)) r g =
      let at = (seek (from_start start) r.file).1 in
      bind_inside (Sound (λ _. LuksAt (some (start, len))) r) _ _ (seek (from_start start) r.file) _
        (λ q e.
          bind_inside (Sound (λ _. LuksAt (some (start, len))) r) _ _ (read_exact read 8 at) _
            (λ hdr e'.
              let (good, reads) =
                read_exact-Reads read Good rest stream 8 at
                  (seekable.keeps (from_start start) r.file g) in
              judged-Sound (λ _. LuksAt (some (start, len))) 3 _ r
                (record r {
                  file = (read_exact read 8 at).1;
                  sent = luks_lines hdr ++ (step 3 running ∷ r.sent);
                })
                tt good refl
                (λ empty fits.
                  let (whole, size) = reads hdr e' in
                  let here = seekable.moves start r.file fits g e in
                  subst (λ b. b ≡ 76 ∷ 85 ∷ 75 ∷ 83 ∷ 186 ∷ 190 ∷ 0 ∷ 2 ∷ [])
                    (sym (
                      ap (take 8) (sym here ∙ sym whole)
                      ∙ take-append 8 hdr _ (omega arith)
                      ∙ take_all 8 hdr (omega arith)))
                    (is_luks2-bytes hdr (not-false _ (issue_if-empty _ _ empty)))))
            (λ x e' a e''. cc e''))
        (λ x e a e'. cc e')
