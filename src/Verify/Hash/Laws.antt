-- ===== src/Verify/Hash/Laws.antt =====
-- The bytes that a hashing pass digests (tui/src/verify.rs, `sha256_range`).
use nixnas.Base.{
  ℕ, zero, suc, ◌+◌, ◌-◌, ◌≤◌, ◌<◌, min, ◌≡◌, refl, sym, ap, ap₂, ◌∙◌, subst, ◌≢◌, Io, Bool, false,
  [], ◌++◌, ◌==◌, leb, length, take, is_empty, Option, none, some, Result, ok, bind_elim,
  bind_inside, arith, Bool-cases, inl, inr, append_assoc, take-append_ge,
}
use nixnas.Base.Text.{Text}
use nixnas.Stream.{Bytes, IoError, SeekFrom, from_start, Read, IsStream, IsSeekable}
use nixnas.Flash.Copy.{prefix_loop, read_prefix}
use nixnas.Flash.Copy.Laws.{is_empty→nil}
use nixnas.Verify.Hash.{
  chunk, Hasher, filled, read_exact, Pass, hash_loop, rendered, sha256_range, hex,
}

module _ {S : Type 0} (read : Read S) (Good : S → Type 0) (rest : S → Bytes)
    (stream : IsStream read Good rest) where
  -- What is read stands in front of what is left.
  abbrev Splits : Bytes → Result IoError Bytes × S → Type 0
  Splits ys (r, t) = Good t × ((b : Bytes) → r ≡ ok b → b ++ rest t ≡ ys)

  prefix_loop-Splits :
      (fuel want : ℕ) (got : Bytes) (s : S)
      → Good s
      → Splits (got ++ rest s) (prefix_loop read fuel want got s)
  unfolding prefix_loop
  prefix_loop-Splits zero want got s g = (g, λ b e. ap (λ x. x ++ rest s) (sym (cc e)))
  prefix_loop-Splits (suc fuel) want got s g = elim (Bool-cases (want == 0)) [
    | inl over ↦ rw over (g, λ b e. ap (λ x. x ++ rest s) (sym (cc e)))
    | inr some' ↦ rw some' (
        bind_elim (Splits (got ++ rest s)) (read want s) _
          (λ bs e.
            let whole = stream.reads want s bs g e in
            let t = (read want s).1 in
            let kept = stream.keeps want s g in
            elim (Bool-cases (is_empty bs)) [
              | inl empty ↦
                  let same : rest t ≡ rest s = rw (is_empty→nil bs empty) at whole in
                  rw empty
                    (kept, λ b e'. ap (λ x. x ++ rest t) (sym (cc e')) ∙ ap (λ x. got ++ x) same)
              | inr more ↦ rw more (
                  subst (λ ys. Splits ys (prefix_loop read fuel (want - length bs) (got ++ bs) t))
                    (append_assoc got bs _ ∙ ap (λ ys. got ++ ys) whole)
                    (prefix_loop-Splits fuel (want - length bs) (got ++ bs) t kept))
            ])
          (λ x e. (stream.keeps want s g, λ b e'. cc e')))
  ]

  abbrev Reads : ℕ → Bytes → Result IoError Bytes × S → Type 0
  Reads want ys (r, t) = Good t × ((b : Bytes) → r ≡ ok b → (b ++ rest t ≡ ys) × (length b ≡ want))

  filled-Reads :
      (want : ℕ) (ys b : Bytes) (t : S)
      → Good t
      → b ++ rest t ≡ ys
      → Reads want ys (filled want b t)
  filled-Reads want ys b t g e = elim (Bool-cases (length b == want)) [
    | inl full ↦ rw full (g, λ c e'. let same : b ≡ c = cc e' in rw (← same) (e, ground arith))
    | inr short ↦ rw short (g, λ c e'. cc e')
  ]

  -- A `read_exact` that succeeds has filled its buffer from the front.
  pub read_exact-Reads : (want : ℕ) (s : S) → Good s → Reads want (rest s) (read_exact read want s)
  unfolding read_exact read_prefix
  read_exact-Reads want s g =
      let p = prefix_loop-Splits want want [] s g in
      bind_elim (Reads want (rest s)) (read_prefix read want s) (filled want)
        (λ b e. filled-Reads want (rest s) b _ p.0 (p.1 b e)) (λ x e. (p.0, λ b e'. cc e'))

-- A hasher sees the bytes, and not how they are cut.
pub record IsHasher {H : Type 0} (hasher : Hasher H) : Type 0 where
  pub update-nil : (h : H) → hasher.update [] h ≡ h
  pub update-append :
      (xs ys : Bytes) (h : H) → hasher.update (xs ++ ys) h ≡ hasher.update ys (hasher.update xs h)

module _ {H : Type 0} (hasher : Hasher H) (law : IsHasher hasher) where
  -- One chunk, and the bytes after it.
  pub chunk_step :
      (bs ws xs : Bytes) (len done want : ℕ) (h : H)
      → bs ++ ws ≡ xs
      → length bs ≡ want
      → want ≤ len - done
      → hasher.update (take (len - (done + want)) ws) (hasher.update bs h)
        ≡ hasher.update (take (len - done) xs) h
  chunk_step bs ws xs len done want h e size le =
      sym (law.update-append bs (take (len - (done + want)) ws) h)
      ∙ ap (λ y. hasher.update y h)
          (sym (take-append_ge (len - done) (len - (done + want)) bs ws (omega arith))
            ∙ ap (take (len - done)) e)

module _ {S H : Type 0} (hasher : Hasher H) (law : IsHasher hasher)
    (seek : SeekFrom → Io S IoError ℕ) (read : Read S) (Good : S → Type 0) (rest : S → Bytes)
    (stream : IsStream read Good rest) where
  -- A pass that ends with a hasher has taken in `ys`.
  abbrev Hashes : Bytes → H → Result IoError (Option H) × Pass S → Type 0
  Hashes ys h (r, q) = Good q.file × ((h' : H) → r ≡ ok (some h') → h' ≡ hasher.update ys h)

  hash_loop-Hashes :
      (skip : ℕ → Bool) (fuel done len : ℕ) (h : H) (p : Pass S)
      → Good p.file
      → len - done ≤ fuel
      → Hashes
          (take (len - done) (rest p.file))
          h
          (hash_loop hasher seek read skip fuel done len h p)
  unfolding hash_loop
  hash_loop-Hashes skip zero done len h p g le =
      let none' : len - done ≡ 0 = omega arith in
      rw none' (g, λ h' e. let same : h ≡ h' = cc e in sym same ∙ sym (law.update-nil h))
  hash_loop-Hashes skip (suc fuel) done len h p g le = elim (Bool-cases (leb len done)) [
    | inl over ↦
        let none' : len - done ≡ 0 = ground arith in
        rw over
          (g, λ h' e. let same : h ≡ h' = cc e in rw none' (sym same ∙ sym (law.update-nil h)))
    | inr more ↦ elim (Bool-cases (skip done)) [
      | inl skipped ↦ rw (more, skipped) (g, λ h' e. cc e)
      | inr on' ↦
          let want = min chunk (len - done) in
          let (kept, reads) = read_exact-Reads read Good rest stream want p.file g in
          let some' : done < len = ground arith in
          rw (more, on')
            (bind_inside (Hashes (take (len - done) (rest p.file)) h) (λ x. x)
              (λ f. record p { file = f }) (read_exact read want p.file) _
              (λ bs e.
                let (whole, size) = reads bs e in
                let (kept', hashed) =
                  hash_loop-Hashes skip fuel (done + want) len (hasher.update bs h) _ kept
                    (omega arith) in
                (
                  kept',
                  λ h' e'.
                      hashed h' e'
                      ∙ chunk_step hasher law bs _ _ len done want h whole size (omega arith),
                ))
              (λ x e. (kept, λ h' e'. cc e')))
    ]
  ]

  -- A pass that nobody skips does not give up.
  hash_loop-unskipped :
      (fuel done len : ℕ) (h : H) (p : Pass S)
      → (hash_loop hasher seek read (λ _. false) fuel done len h p).0 ≢ ok none
  unfolding hash_loop
  hash_loop-unskipped zero done len h p = λ e. cc e
  hash_loop-unskipped (suc fuel) done len h p = elim (Bool-cases (leb len done)) [
    | inl over ↦ rw over (λ e. cc e)
    | inr more ↦ rw more (
        bind_inside (λ r. r.0 ≢ ok none) (λ x. x) (λ f. record p { file = f })
          (read_exact read (min chunk (len - done)) p.file) _
          (λ bs e.
            hash_loop-unskipped fuel (done + min chunk (len - done)) len (hasher.update bs h) _)
          (λ x e e'. cc e'))
  ]

  module _ (content : Bytes) (seekable : IsSeekable seek Good rest content) where
    -- The digest of the first `len` bytes, if there is one.
    abbrev Digests : ℕ → Result IoError (Option Text) × Pass S → Type 0
    Digests len (r, q) =
        Good q.file
        × ((t : Text)
            → r ≡ ok (some t)
            → t ≡ hex (hasher.finalize (hasher.update (take len content) hasher.new)))

    rendered-Digests :
        (len : ℕ) (o : Option H) (q : Pass S)
        → Good q.file
        → ((h : H) → o ≡ some h → h ≡ hasher.update (take len content) hasher.new)
        → Digests len (rendered hasher seek read o q)
    rendered-Digests len none q g hashed = (g, λ t e. cc e)
    rendered-Digests len (some h) q g hashed = (
      g,
      λ t e.
          let same : hex (hasher.finalize h) ≡ t = cc e in
          sym same ∙ ap (λ x. hex (hasher.finalize x)) (hashed h refl),
    )

    pub sha256_range-Digests :
        (len : ℕ) (skip : ℕ → Bool) (p : Pass S)
        → Good p.file
        → Digests len (sha256_range hasher seek read len skip p)
    unfolding sha256_range
    sha256_range-Digests len skip p g =
        bind_inside (Digests len) (λ x. x) (λ f. record p { file = f }) (seek (from_start 0) p.file)
          _
          (λ q e.
            let at = seekable.moves 0 p.file (omega arith) g e in
            let whole_len : len - 0 ≡ len = omega arith in
            let p' : Pass S = record p { file = (seek (from_start 0) p.file).1 } in
            let (good, hashed) =
              hash_loop-Hashes skip len 0 len hasher.new p' (seekable.keeps (from_start 0) p.file g)
                (omega arith) in
            bind_elim (Digests len) (hash_loop hasher seek read skip len 0 len hasher.new p')
              (rendered hasher seek read)
              (λ o e'. rendered-Digests len o _ good (λ h some_h.
                hashed h (e' ∙ ap ok some_h)
                ∙ ap₂ (λ n ys. hasher.update (take n ys) hasher.new) whole_len at))
              (λ x e'. (good, λ t e''. cc e'')))
          (λ x e. (seekable.keeps (from_start 0) p.file g, λ t e'. cc e'))

    rendered-unskipped :
        (o : Option H) (q : Pass S) → o ≢ none → (rendered hasher seek read o q).0 ≢ ok none
    rendered-unskipped none q n = absurd (n refl)
    rendered-unskipped (some h) q n = λ e. cc e

    -- Over a seekable stream and a hasher that does not see how the bytes are cut: a pass that nobody may
    -- skip never gives up, and the digest that it gives is that of the first `len` bytes in hex.
    pub sha256_range-whole :
        (len : ℕ) (p : Pass S)
        → Good p.file
        → let r = (sha256_range hasher seek read len (λ _. false) p).0 in
          (r ≢ ok none)
          × ((t : Text)
              → r ≡ ok (some t)
              → t ≡ hex (hasher.finalize (hasher.update (take len content) hasher.new)))
    unfolding sha256_range
    sha256_range-whole len p g = (
      bind_inside (λ r. r.0 ≢ ok none) (λ x. x) (λ f. record p { file = f })
          (seek (from_start 0) p.file) _
          (λ q e.
            let p' : Pass S = record p { file = (seek (from_start 0) p.file).1 } in
            bind_elim (λ r. r.0 ≢ ok none)
              (hash_loop hasher seek read (λ _. false) len 0 len hasher.new p')
              (rendered hasher seek read)
              (λ o e'.
                rendered-unskipped o _
                  (λ n. hash_loop-unskipped len 0 len hasher.new p' (e' ∙ ap ok n)))
              (λ x e' e''. cc e''))
          (λ x e e'. cc e'),
      (sha256_range-Digests len (λ _. false) p g).1,
    )
