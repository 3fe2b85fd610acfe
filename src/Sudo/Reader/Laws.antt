-- ===== src/Sudo/Reader/Laws.antt =====
-- What a block read, a cache hit and a refill of `SudoReader` (tui/src/sudo.rs) give.
use nixnas.Base.{
  ℕ, ◌+◌, ◌-◌, ◌%◌, ◌≤◌, ◌<◌, min, ◌≡◌, refl, sym, ap, subst, ◌∙◌, true, false, List, [], ◌++◌, leb,
  length, take, drop, Result, ok, err, bind_elim, arith, Bool-cases, inl, inr, drop-drop, drop-take,
  take-take, take-append-drop, length-take, length-drop,
}
use nixnas.Base.Text.{Text}
use nixnas.Stream.{Bytes, IoError}
use nixnas.Sudo.Command.{Command, Output}
use nixnas.Sudo.Reader.{
  SudoReader, State, block, dd_output, dd_command, dd_range, give, in_cache, serve, refill,
  keep_block, read_large, read_small,
}

-- What `dd` documents: with `skip_bytes,count_bytes` a successful run prints `n` bytes at `off`.
abbrev pub DdReads : (List Command → Command → Result IoError Output) → Text → Bytes → Type 0
DdReads run dev content =
    (ran : List Command) (r : SudoReader) (off n : ℕ) (out : Output)
    → r.dev ≡ dev
    → run ran (dd_command r off n) ≡ ok out
    → out.success ≡ true
    → out.stdout ≡ take n (drop off content)

module _ {ℓ} {A : Type ℓ} where
  -- A piece of a front piece, and what follows it.
  take_front :
      (m k : ℕ) (xs : List A) → m ≤ length (take k xs) → take m (take k xs) ++ drop m xs ≡ xs
  take_front m k xs h =
      let le : m ≤ k = omega (arith, h, length-take k xs) in
      ap (λ ys. ys ++ drop m xs) (take-take m k xs le) ∙ take-append-drop m xs

-- The reader is for this device, and its cache holds the device's bytes.
pub record Good (dev : Text) (content : Bytes) (s : State) : Type 0 where
  pub same_dev : s.reader.dev ≡ dev
  pub same_len : s.reader.len ≡ length content
  pub cached : s.reader.cache ≡ take (length s.reader.cache) (drop s.reader.cache_start content)

-- The bytes still to come.
abbrev pub rest : Bytes → State → Bytes
rest content s = drop s.reader.here content

-- What a call that is to read `want` bytes gives, where `ys` are still to come.
abbrev pub GivesFrom : Text → Bytes → ℕ → Bytes → Result IoError Bytes × State → Type 0
GivesFrom dev content want ys (r, t) =
    Good dev content t
    × ((bs : Bytes)
        → r ≡ ok bs
        → (bs ++ rest content t ≡ ys) × (length bs ≤ want) × (bs ≡ [] → 0 < want → ys ≡ []))

abbrev pub Gives : Text → Bytes → ℕ → State → Result IoError Bytes × State → Type 0
Gives dev content want s = GivesFrom dev content want (rest content s)

dd_output-ok :
    (r : Result IoError Output) (bs : Bytes)
    → dd_output r ≡ ok bs
    → (out : Output) × (r ≡ ok out) × (out.success ≡ true) × (bs ≡ out.stdout)
dd_output-ok (err e) bs h = cc
dd_output-ok (ok out) bs h = elim (Bool-cases out.success) [
  | inl yes' ↦ (out, refl, yes', ground arith)
  | inr no' ↦ absurd (ground arith)
]

module _ (run : List Command → Command → Result IoError Output) (dev : Text) (content : Bytes)
    (dd : DdReads run dev content) where
  dd_range-reads :
      (off n : ℕ) (s : State) (bs : Bytes)
      → Good dev content s
      → (dd_range run off n s).0 ≡ ok bs
      → bs ≡ take n (drop off content)
  unfolding dd_range
  dd_range-reads off n s bs g h =
      let (out, ran, success, e) = dd_output-ok _ bs h in
      e ∙ dd s.ran s.reader off n out g.same_dev ran success

  -- Handing on the front of what is to come, at most `want` bytes of it.
  give-Gives :
      (want k : ℕ) (s : State)
      → Good dev content s
      → 0 < length (take k (rest content s))
      → Gives dev content want s (give run want (take k (rest content s)) s)
  give-Gives want k s g some_bytes =
      let ys = rest content s in
      let m = min (length (take k ys)) want in
      let piece = take m (take k ys) in
      let size : length piece ≡ min m (length (take k ys)) = length-take m (take k ys) in
      let whole : piece ++ drop (s.reader.here + m) content ≡ ys =
        ap (λ zs. piece ++ zs) (sym (drop-drop m s.reader.here _ content refl))
        ∙ take_front m k ys (omega arith) in
      (
        record { same_dev = g.same_dev; same_len = g.same_len; cached = g.cached },
        λ bs e.
            let e' : piece ≡ bs = cc e in
            rw (← e') (
              whole,
              omega (arith, size),
              λ empty pos. absurd (omega (arith, size, ap length empty)),
            ),
      )

  -- The cache covers the position.
  abbrev Covers : State → Type 0
  Covers s =
      (s.reader.cache_start ≤ s.reader.here)
      × (s.reader.here < s.reader.cache_start + length s.reader.cache)

  -- What the cache has at the position is the front of what is to come.
  drop-cache :
      (s : State) (offset k : ℕ)
      → Good dev content s
      → s.reader.here ≡ s.reader.cache_start + offset
      → length s.reader.cache ≡ offset + k
      → drop offset s.reader.cache ≡ take k (rest content s)
  drop-cache s offset k g at size =
      ap (drop offset) g.cached
      ∙ drop-take offset _ k _ size
      ∙ ap (take k) (drop-drop offset s.reader.cache_start _ content at)

  serve-Gives :
      (want : ℕ) (s : State)
      → Good dev content s
      → Covers s
      → Gives dev content want s (serve run want s)
  unfolding serve
  serve-Gives want s g (low, high) =
      let offset = s.reader.here - s.reader.cache_start in
      let k = length s.reader.cache - offset in
      let e : drop offset s.reader.cache ≡ take k (rest content s) =
        drop-cache s offset k g (omega arith) (omega arith) in
      let inside : leb (length s.reader.cache) offset ≡ false = ground arith in
      rw (inside, e)
        (give-Gives want k s g (omega (arith, ap length e, length-drop offset s.reader.cache)))

  -- After a refill the cache holds the device's bytes, and on success it covers the position.
  abbrev Refilled : State → Result IoError (Unit {0}) × State → Type 0
  Refilled s (r, t) =
      Good dev content t × (t.reader.here ≡ s.reader.here) × ((u : Unit {0}) → r ≡ ok u → Covers t)

  refill-Refilled :
      (s : State) → Good dev content s → s.reader.here < s.reader.len → Refilled s (refill run s)
  unfolding refill
  refill-Refilled s g inside =
      let start = s.reader.here - s.reader.here % block in
      let span = min block (s.reader.len - start) in
      bind_elim (Refilled s) (dd_range run start span s) (keep_block run start)
        (λ bytes e.
          let front : bytes ≡ take span (drop start content) =
            dd_range-reads start span s bytes g e in
          let size : length bytes ≡ span = omega (
            arith,
            ap length front,
            length-take span (drop start content),
            length-drop start content,
            g.same_len,
          ) in
          (
            record {
              same_dev = g.same_dev;
              same_len = g.same_len;
              cached = front ∙ ap (λ k. take k (drop start content)) (sym size);
            },
            refl,
            λ u _. (omega arith, omega (arith, size, g.same_len)),
          ))
        (λ x _. (
          record { same_dev = g.same_dev; same_len = g.same_len; cached = g.cached },
          refl,
          λ u e. cc e,
        ))

  pub read_small-Gives :
      (want : ℕ) (s : State)
      → Good dev content s
      → s.reader.here < s.reader.len
      → Gives dev content want s (read_small run want s)
  unfolding read_small
  read_small-Gives want s g inside = elim (Bool-cases (in_cache run s.reader)) [
    | inl hit ↦ rw hit (serve-Gives want s g (ground arith))
    | inr miss ↦ rw miss (
        let (good, same, covers) = refill-Refilled s g inside in
        bind_elim (Gives dev content want s) (refill run s) (λ _. serve run want)
          (λ u e.
            subst (λ ys. GivesFrom dev content want ys (serve run want (refill run s).1))
              (ap (λ k. drop k content) same) (serve-Gives want (refill run s).1 good (covers u e)))
          (λ x _. (good, λ bs e'. cc e')))
  ]

  pub read_large-Gives :
      (want : ℕ) (s : State)
      → Good dev content s
      → s.reader.here < s.reader.len
      → 0 < want
      → Gives dev content want s (read_large run want s)
  unfolding read_large
  read_large-Gives want s g inside pos =
      bind_elim (Gives dev content want s) (dd_range run s.reader.here want s) (give run want)
        (λ bytes e.
          let front : bytes ≡ take want (rest content s) =
            dd_range-reads s.reader.here want s bytes g e in
          rw front (
            give-Gives want want (dd_range run s.reader.here want s).1
              (record { same_dev = g.same_dev; same_len = g.same_len; cached = g.cached })
              (omega (
                arith,
                length-take want (rest content s),
                length-drop s.reader.here content,
                g.same_len,
              ))))
        (λ x _. (
          record { same_dev = g.same_dev; same_len = g.same_len; cached = g.cached },
          λ bs e. cc e,
        ))
