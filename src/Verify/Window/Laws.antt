-- ===== src/Verify/Window/Laws.antt =====
-- The window on a partition as a stream (tui/src/verify.rs, `SliceCursor`).
use nixnas.Base.{
  ℕ, ◌+◌, ◌-◌, ◌^◌, ◌≤◌, ◌<◌, min, ◌≡◌, refl, sym, ap, ◌∙◌, List, [], ◌++◌, ◌==◌, length, take,
  drop, Result, ok, Io, bind, bind_elim, arith, Bool-cases, inl, inr, drop-drop, take-append_ge,
  drop-append, take-nil,
}
use nixnas.Stream.{Bytes, IoError, SeekFrom, from_start, Read, IsStream, IsSeekable}
use nixnas.Verify.Window.{SliceCursor, on_file, advance, read}

module _ {ℓ} {A : Type ℓ} where
  -- A piece read from the front of `xs`, and the rest of a cut of `xs`.
  cut_after :
      (bs ws xs : List A) (n m k j : ℕ) (content : List A)
      → m ≡ n + length bs
      → xs ≡ drop n content
      → bs ++ ws ≡ xs
      → k ≡ length bs + j
      → bs ++ take j (drop m content) ≡ take k xs
  cut_after bs ws xs n m k j content shift at split size =
      ap (λ l. bs ++ take j l)
        (sym (drop-drop (length bs) n m content shift)
          ∙ ap (drop (length bs)) (sym at ∙ sym split)
          ∙ drop-append bs ws)
      ∙ sym (take-append_ge k j bs ws size)
      ∙ ap (take k) split

module _ {F : Type 0} (seek_file : SeekFrom → Io F IoError ℕ) (read_file : Read F)
    (GoodFile : F → Type 0) (rest_file : F → Bytes) (content : Bytes)
    (stream : IsStream read_file GoodFile rest_file)
    (seekable : IsSeekable seek_file GoodFile rest_file content) where
  -- The window lies within the file.
  pub record Good (c : SliceCursor F) : Type 0 where
    pub file_good : GoodFile c.file
    pub within : c.start + c.len ≤ length content
    pub below : length content < 2 ^ 64

  -- What is left of the window.
  abbrev pub rest : SliceCursor F → Bytes
  rest c = take (c.len - c.here) (drop (c.start + c.here) content)

  abbrev GivesFrom : ℕ → Bytes → Result IoError Bytes × SliceCursor F → Type 0
  GivesFrom size ys (r, d) =
      Good d
      × ((bs : Bytes)
          → r ≡ ok bs
          → (bs ++ rest d ≡ ys) × (length bs ≤ size) × (bs ≡ [] → 0 < size → ys ≡ []))

  -- A read of the file at the window's position, cut to what the window has left.
  read_at-GivesFrom :
      (size : ℕ) (c : SliceCursor F)
      → Good c
      → c.here < c.len
      → rest_file c.file ≡ drop (c.start + c.here) content
      → GivesFrom size (rest c) (bind (on_file (read_file (min size (c.len - c.here))) c) advance)
  read_at-GivesFrom size c g inside at =
      let want = min size (c.len - c.here) in
      let good : (f : F) → GoodFile f → (here : ℕ) → Good (record c { file = f; here = here }) =
        λ f h here. record { file_good = h; within = g.within; below = g.below } in
      let kept = stream.keeps want c.file g.file_good in
      bind_elim (GivesFrom size (rest c)) (on_file (read_file want) c) advance
        (λ bs e.
          let short = stream.bounded want c.file bs g.file_good e in
          (
            good _ kept _,
            λ bs' e'.
                let same : bs ≡ bs' = cc e' in
                rw (← same) (
                  cut_after bs _ _ (c.start + c.here) _ (c.len - c.here) _ content (omega arith)
                      refl (stream.reads want c.file bs g.file_good e ∙ at) (omega arith),
                  omega arith,
                  λ empty pos.
                      ap (take (c.len - c.here))
                        (sym at ∙ stream.ends want c.file g.file_good (rw empty at e) (omega arith))
                      ∙ take-nil ℕ (c.len - c.here),
                ),
          ))
        (λ x e. (good _ kept _, λ bs' e'. cc e'))

  -- The seek in front of a read puts the file at the window's position.
  read-GivesFrom :
      (size : ℕ) (c : SliceCursor F)
      → Good c
      → GivesFrom size (rest c) (read seek_file read_file size c)
  unfolding read
  read-GivesFrom size c g = elim (Bool-cases (c.len - c.here == 0)) [
    | inl over ↦
        let none' : c.len - c.here ≡ 0 = ground arith in
        rw over (
          g,
          λ bs e.
              let e' : [] ≡ bs = cc e in
              rw (← e') (
                refl,
                omega arith,
                λ _ _. ap (λ k. take k (drop (c.start + c.here) content)) none',
              ),
        )
    | inr inside ↦
        let some' : c.here < c.len = ground arith in
        let target = from_start (c.start + c.here) in
        let kept = seekable.keeps target c.file g.file_good in
        let good : Good (record c { file = (seek_file target c.file).1 }) = record {
          file_good = kept;
          within = g.within;
          below = g.below;
        } in
        rw inside (
          bind_elim (GivesFrom size (rest c)) (on_file (seek_file target) c) _
            (λ q e. read_at-GivesFrom size _ good some' (
              seekable.moves (c.start + c.here) c.file (omega (arith, g.within, g.below))
                g.file_good e))
            (λ x e. (good, λ bs e'. cc e')))
  ]

  -- Over a seekable stream that contains the window and is shorter than 2^64, the window is a stream
  -- over its byte range: it never shows a byte outside the range, shows those inside in order, and
  -- reports the end only at the end.
  pub window_read-IsStream : IsStream (read seek_file read_file) Good rest
  window_read-IsStream = record {
    keeps = λ n c g. (read-GivesFrom n c g).0;
    reads = λ n c bs g e. ((read-GivesFrom n c g).1 bs e).0;
    bounded = λ n c bs g e. ((read-GivesFrom n c g).1 bs e).1;
    ends = λ n c g e pos. ((read-GivesFrom n c g).1 [] e).2 refl pos;
  }
