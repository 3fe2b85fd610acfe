-- ===== src/Flash/Copy/Laws.antt =====
-- What the byte loops do over streams.
use nixnas.Base.{
  ℕ, zero, suc, ◌-◌, ◌≤◌, ◌<◌, min, ◌≡◌, refl, sym, ap, ◌∙◌, subst, ◌≢◌, ◌↔◌, Bool, true, false, [],
  ◌∷◌, ◌++◌, ◌==◌, length, take, is_empty, Result, ok, bind_elim, bind_inside, arith, Bool-cases,
  inl, inr, append_assoc, append-nil, take-append_ge, length-take, take-take, take-nil,
}
use nixnas.Base.Text.{text_eq→eq, text_eq_refl}
use nixnas.Stream.{Bytes, IoError, Read, IsStream, Succeeds}
use nixnas.Flash.Copy.{prefix_loop, read_prefix, prefix_matches, same_prefix, match_device}

pub is_empty→nil : (bs : Bytes) → is_empty bs ≡ true → bs ≡ []
is_empty→nil [] h = refl
is_empty→nil (b ∷ bs) h = ground arith

pub not-is_empty : (bs : Bytes) → is_empty bs ≡ false → 0 < length bs
not-is_empty [] h = ground arith
not-is_empty (b ∷ bs) h = omega arith

module _ {S : Type 0} (read : Read S) (Good : S → Type 0) (rest : S → Bytes)
    (stream : IsStream read Good rest) where
  -- The result is `bs`, if there is one, and the reader stays good.
  abbrev Yields : Bytes → Result IoError Bytes × S → Type 0
  Yields bs (r, t) = Good t × ((b : Bytes) → r ≡ ok b → b ≡ bs)

  prefix_loop-Yields :
      (fuel want : ℕ) (got : Bytes) (s : S)
      → Good s
      → want ≤ fuel
      → Yields (got ++ take want (rest s)) (prefix_loop read fuel want got s)
  unfolding prefix_loop
  prefix_loop-Yields zero want got s g le =
      let none' : want ≡ 0 = omega arith in rw (none', append-nil) (g, λ b e. cc e)
  prefix_loop-Yields (suc fuel) want got s g le = elim (Bool-cases (want == 0)) [
    | inl over ↦
        let none' : want ≡ 0 = ground arith in rw over (g, λ b e. rw (none', append-nil) (cc e))
    | inr some' ↦ rw some' (
        bind_elim (Yields (got ++ take want (rest s))) (read want s) _
          (λ bs e.
            let whole = stream.reads want s bs g e in
            let short = stream.bounded want s bs g e in
            let t = (read want s).1 in
            let kept = stream.keeps want s g in
            elim (Bool-cases (is_empty bs)) [
              | inl empty ↦
                  let nil : rest s ≡ [] =
                    stream.ends want s g (rw (is_empty→nil bs empty) at e) (ground arith) in
                  rw empty (kept, λ b e'. rw (nil, take-nil ℕ want, append-nil) (cc e'))
              | inr more ↦ rw more (
                  subst (λ ys. Yields ys (prefix_loop read fuel (want - length bs) (got ++ bs) t))
                    (append_assoc got bs _
                      ∙ ap (λ ys. got ++ ys)
                          (sym (take-append_ge want (want - length bs) bs (rest t) (omega arith))
                            ∙ ap (take want) whole))
                    (prefix_loop-Yields fuel (want - length bs) (got ++ bs) t kept
                      (omega (arith, not-is_empty bs more))))
            ])
          (λ x e. (stream.keeps want s g, λ b e'. cc e')))
  ]

  -- A prefix that was read is the front of what was to come, cut at the length asked for.
  pub read_prefix-Yields :
      (len : ℕ) (s : S) → Good s → Yields (take len (rest s)) (read_prefix read len s)
  unfolding read_prefix
  read_prefix-Yields len s g = prefix_loop-Yields len len [] s g (omega arith)

  prefix_loop-total :
      Succeeds read Good
      → (fuel want : ℕ) (got : Bytes) (s : S) → Good s
      → (b : Bytes) × ((prefix_loop read fuel want got s).0 ≡ ok b)
  unfolding prefix_loop
  prefix_loop-total works zero want got s g = (got, refl)
  prefix_loop-total works (suc fuel) want got s g = elim (Bool-cases (want == 0)) [
    | inl over ↦ (got, rw over)
    | inr some' ↦ rw some' (
        bind_elim (λ p. (b : Bytes) × (p.0 ≡ ok b)) (read want s) _
          (λ bs e. elim (Bool-cases (is_empty bs)) [
            | inl empty ↦ (got, rw empty)
            | inr more ↦ rw more (
                prefix_loop-total works fuel (want - length bs) (got ++ bs) _
                  (stream.keeps want s g))
          ])
          (λ x e. let (bs, e') = works want s g in absurd (cc (e, e'))))
  ]

-- The comparison is true exactly when the image's prefix is not empty and the device's begins with it.
prefix_matches_iff :
    (pa pb : Bytes) → (prefix_matches pa pb ≡ true) ↔ ((pa ≢ []) × (take (length pa) pb ≡ pa))
unfolding prefix_matches
prefix_matches_iff [] pb = (λ h. cc h, λ h. absurd (h.0 refl))
prefix_matches_iff (a ∷ pa) pb =
    let size = length-take (length (a ∷ pa)) pb in
    (
      λ h. (λ e. cc e, text_eq→eq _ _ (ground arith)),
      λ h.
          let fits : (length (a ∷ pa) == min (length pb) (length (a ∷ pa))) ≡ true =
            ground (arith, size, ap length h.1) in
          rw fits (rw h.1 (text_eq_refl (a ∷ pa))),
    )

module _ {S T : Type 0} (read_image : Read S) (GoodS : S → Type 0) (image : S → Bytes)
    (streamS : IsStream read_image GoodS image) (read_dev : Read T) (GoodT : T → Type 0)
    (device : T → Bytes) (streamT : IsStream read_dev GoodT device) where
  abbrev Verdict : ℕ → S → T → Bool → Type 0
  Verdict len s t r =
      let head = take len (image s) in
      (r ≡ true) ↔ ((head ≢ []) × (take (length head) (device t) ≡ head))

  match_device-Verdict :
      (len : ℕ) (s s' : S) (t : T) (r : Bool)
      → GoodT t
      → (match_device read_dev len (take len (image s)) (s', t)).0 ≡ ok r
      → Verdict len s t r
  match_device-Verdict len s s' t r gt =
      let head = take len (image s) in
      bind_inside (λ p. p.0 ≡ ok r → Verdict len s t r) (λ e. e) (λ u. (s', u))
        (read_prefix read_dev len t) (λ pb w. (ok (prefix_matches head pb), w))
        (λ pb e h.
          let dev : pb ≡ take len (device t) =
            (read_prefix-Yields read_dev GoodT device streamT len t gt).1 pb e in
          let same : prefix_matches head pb ≡ r = cc h in
          let cut : take (length head) pb ≡ take (length head) (device t) =
            ap (take (length head)) dev
            ∙ take-take (length head) len (device t) (omega (arith, length-take len (image s))) in
          rw (← same) (rw cut at (prefix_matches_iff head pb)))
        (λ x e h. cc h)

  -- Over two streams, when both reads succeed, the answer is `true` exactly if the device begins
  -- with the first `len` bytes of the image (all of a shorter image), and there is at least one.
  pub same_prefix_iff :
      (len : ℕ) (s : S) (t : T) (r : Bool)
      → GoodS s
      → GoodT t
      → (same_prefix read_image read_dev len (s, t)).0 ≡ ok r
      → let head = take len (image s) in
        (r ≡ true) ↔ ((head ≢ []) × (take (length head) (device t) ≡ head))
  unfolding same_prefix
  same_prefix_iff len s t r gs gt =
      bind_inside (λ p. p.0 ≡ ok r → Verdict len s t r) (λ e. e) (λ u. (u, t))
        (read_prefix read_image len s) (match_device read_dev len)
        (λ pa e.
          let head : pa ≡ take len (image s) =
            (read_prefix-Yields read_image GoodS image streamS len s gs).1 pa e in
          rw head (match_device-Verdict len s _ t r gt))
        (λ x e h. cc h)
