-- ===== src/Verify/Hash/Compare.antt =====
-- The bytes that the fidelity compare digests (tui/src/verify.rs, `run_verify`).
use nixnas.Base.{
  ℕ, zero, suc, ap, length, length-append, ◌++◌, ◌+◌, ◌-◌, ◌≤◌, ◌<◌, min, ◌≡◌, sym, ◌∙◌, Bool, leb,
  take, Option, some, Result, ok, bind_inside, arith, Bool-cases, inl, inr, Io,
}
use nixnas.Stream.{Bytes, IoError, SeekFrom, Read, IsStream}
use nixnas.Verify.Hash.{chunk, Hasher, read_exact, Pass, compare_loop}
use nixnas.Verify.Hash.Laws.{IsHasher, chunk_step, read_exact-Reads}

longer :
    (bs ws xs : Bytes) (common done want : ℕ)
    → bs ++ ws ≡ xs
    → length bs ≡ want
    → common - (done + want) ≤ length ws
    → want ≤ common - done
    → common - done ≤ length xs
longer bs ws xs common done want e size le want_le =
    let sum = length-append bs ws in
    let whole : length xs ≡ length bs + length ws = sym (ap length e) ∙ sum in omega arith

module _ {S T H : Type 0} (hasher : Hasher H) (law : IsHasher hasher)
    (seek : SeekFrom → Io S IoError ℕ) (read : Read S) (GoodS : S → Type 0) (device : S → Bytes)
    (streamS : IsStream read GoodS device) (read_image : Read T) (GoodT : T → Type 0)
    (image : T → Bytes) (streamT : IsStream read_image GoodT image) where
  -- A compare that was not skipped has taken in `n` bytes of `xs` and `n` bytes of `ys`.
  abbrev pub Compares :
      ℕ → Bytes → Bytes → H → H → Result IoError (Option (H × H)) × (Pass S × T) → Type 0
  Compares n xs ys hd hi r =
      GoodS r.1.0.file
      × GoodT r.1.1
      × ((hd' hi' : H)
          → r.0 ≡ ok (some (hd', hi'))
          → (n ≤ length xs)
            × (n ≤ length ys)
            × (hd' ≡ hasher.update (take n xs) hd)
            × (hi' ≡ hasher.update (take n ys) hi))

  -- With enough fuel, a compare that succeeds and was not skipped has found on both sides at least
  -- as many bytes as were left of the common length, and has given each hasher exactly that many,
  -- the next ones of the device and of the image.
  pub compare_loop-Compares :
      (skip : ℕ → Bool) (fuel done common : ℕ) (hd hi : H) (p : Pass S) (t : T)
      → GoodS p.file
      → GoodT t
      → common - done ≤ fuel
      → Compares
          (common - done)
          (device p.file)
          (image t)
          hd
          hi
          (compare_loop hasher seek read read_image skip fuel done common hd hi (p, t))
  unfolding compare_loop
  compare_loop-Compares skip zero done common hd hi p t g k le =
      let none' : common - done ≡ 0 = omega arith in
      rw none' (
        g,
        k,
        λ hd' hi' e. (
          omega arith,
          omega arith,
          let same : hd ≡ hd' = cc e in sym same ∙ sym (law.update-nil hd),
          let same : hi ≡ hi' = cc e in sym same ∙ sym (law.update-nil hi),
        ),
      )
  compare_loop-Compares skip (suc fuel) done common hd hi p t g k le =
      elim (Bool-cases (leb common done)) [
        | inl over ↦
            let none' : common - done ≡ 0 = ground arith in
            rw over (
              g,
              k,
              λ hd' hi' e. (
                omega arith,
                omega arith,
                let same : hd ≡ hd' = cc e in rw none' (sym same ∙ sym (law.update-nil hd)),
                let same : hi ≡ hi' = cc e in rw none' (sym same ∙ sym (law.update-nil hi)),
              ),
            )
        | inr more ↦ elim (Bool-cases (skip done)) [
          | inl skipped ↦ rw (more, skipped) (g, k, λ hd' hi' e. cc e)
          | inr on' ↦
              let want = min chunk (common - done) in
              let xs = device p.file in
              let ys = image t in
              let (kept, reads) = read_exact-Reads read GoodS device streamS want p.file g in
              let (kept_image, reads_image) =
                read_exact-Reads read_image GoodT image streamT want t k in
              let some' : done < common = ground arith in
              rw (more, on')
                (bind_inside (Compares (common - done) xs ys hd hi) (λ x. x)
                  (λ f. (record p { file = f }, t)) (read_exact read want p.file) _
                  (λ bd e.
                    let (whole, size) = reads bd e in
                    let p' : Pass S = record p { file = (read_exact read want p.file).1 } in
                    bind_inside (Compares (common - done) xs ys hd hi) (λ x. x) (λ u. (p', u))
                      (read_exact read_image want t) _
                      (λ bi e'.
                        let (whole_image, size_image) = reads_image bi e' in
                        let (good, good_image, both) =
                          compare_loop-Compares skip fuel (done + want) common (hasher.update bd hd)
                            (hasher.update bi hi) _ _ kept kept_image (omega arith) in
                        (
                          good,
                          good_image,
                          λ hd' hi' e''. (
                            longer bd _ _ common done want whole size (both hd' hi' e'').0
                                (omega arith),
                            longer bi _ _ common done want whole_image size_image
                                (both hd' hi' e'').1 (omega arith),
                            (both hd' hi' e'').2
                                ∙ chunk_step hasher law bd _ _ common done want hd whole size
                                    (omega arith),
                            (both hd' hi' e'').3
                                ∙ chunk_step hasher law bi _ _ common done want hi whole_image
                                    size_image (omega arith),
                          ),
                        ))
                      (λ x e'. (kept, kept_image, λ hd' hi' e''. cc e'')))
                  (λ x e. (kept, k, λ hd' hi' e'. cc e')))
        ]
      ]
