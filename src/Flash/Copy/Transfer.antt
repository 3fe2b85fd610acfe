-- ===== src/Flash/Copy/Transfer.antt =====
-- The copy loop between a source and a sink (tui/src/flash.rs, `copy_with_progress`).
use nixnas.Base.{
  ℕ, zero, suc, ◌+◌, ◌<◌, ◌≡◌, refl, sym, ap, ◌∙◌, ◌≢◌, List, [], ◌∷◌, ◌++◌, length, is_empty,
  Result, ok, err, bind_inside, arith, Bool-cases, inl, inr, append_assoc, append-nil,
  length-append,
}
use nixnas.Stream.{Bytes, Read, IsStream, Succeeds}
use nixnas.Flash.Copy.{
  chunk, CopyError, reading_source, writing_destination, out_of_fuel, Write, Progress, Copying,
  send, set_src, set_dst, copy_loop, copy_with_progress,
}
use nixnas.Flash.Copy.Laws.{is_empty→nil, not-is_empty}

-- A sink appends what a successful `write_all` is given.
pub record IsSink {D : Type 0} (write_all : Write D) (written : D → Bytes) : Type 0 where
  pub writes :
      (bs : Bytes) (d : D) {u : Unit {0}}
      → (write_all bs d).0 ≡ ok u
      → written (write_all bs d).1 ≡ written d ++ bs

-- `done` of the last event sent.
abbrev pub last_done : List Progress → ℕ
last_done [] = 0
last_done (p ∷ _) = p.done

module _ {S D : Type 0} (read : Read S) (Good : S → Type 0) (rest : S → Bytes)
    (stream : IsStream read Good rest) (write_all : Write D) (written : D → Bytes)
    (sink : IsSink write_all written) where
  -- What a copy of `ys` onto `xs` leaves, when `n` bytes were counted before.
  abbrev Copied : Bytes → Bytes → ℕ → Result CopyError (Unit {0}) × Copying S D → Type 0
  Copied xs ys n (r, d) =
      (r ≢ err out_of_fuel)
      × ((u : Unit {0})
          → r ≡ ok u
          → (written d.dst ≡ xs ++ ys) × (last_done d.sent ≡ n + length ys))

  copy_loop-Copied :
      (fuel total done : ℕ) (c : Copying S D)
      → Good c.src
      → length (rest c.src) < fuel
      → last_done c.sent ≡ done
      → Copied (written c.dst) (rest c.src) done (copy_loop read write_all fuel total done c)
  unfolding copy_loop
  copy_loop-Copied zero total done c g enough counted = absurd (omega arith)
  copy_loop-Copied (suc fuel) total done c g enough counted =
      let P = Copied (written c.dst) (rest c.src) done in
      bind_inside P reading_source (set_src c) (read chunk c.src) _
        (λ bs e.
          let whole = stream.reads chunk c.src bs g e in
          let kept = stream.keeps chunk c.src g in
          let size : length bs + length (rest (read chunk c.src).1) ≡ length (rest c.src) =
            sym (length-append bs (rest (read chunk c.src).1)) ∙ ap length whole in
          elim (Bool-cases (is_empty bs)) [
            | inl empty ↦
                let nil : rest c.src ≡ [] =
                  stream.ends chunk c.src g (rw (is_empty→nil bs empty) at e) (omega arith) in
                rw (empty, nil) (λ f. cc f, λ u _. (sym (append-nil (written c.dst)), omega arith))
            | inr more ↦ rw more (
                bind_inside P writing_destination (set_dst (set_src c (read chunk c.src).1))
                  (write_all bs c.dst) _
                  (λ u e'.
                    let d = set_dst (set_src c (read chunk c.src).1) (write_all bs c.dst).1 in
                    let p : Progress = record { done = done + length bs; total = total } in
                    let (enough', copied) =
                      copy_loop-Copied fuel total (done + length bs) (send p d) kept
                        (omega (arith, size, not-is_empty bs more)) refl in
                    (
                      enough',
                      λ v f.
                          let (bytes, count) = copied v f in
                          (
                            bytes
                                ∙ ap (λ xs. xs ++ rest d.src) (sink.writes bs c.dst e')
                                ∙ append_assoc (written c.dst) bs (rest d.src)
                                ∙ ap (λ ys. written c.dst ++ ys) whole,
                            omega (arith, count, size),
                          ),
                    ))
                  (λ x e'. (λ f. cc f, λ u f. cc f)))
          ])
        (λ x e. (λ f. cc f, λ u f. cc f))

  -- From a stream to a sink that appends, with fuel above the number of bytes to come: a copy never
  -- runs out of fuel, and one that succeeds has appended exactly the source's bytes to the sink, and
  -- the last progress event counts them all.
  pub copy_with_progress-Copied :
      (fuel total : ℕ) (c : Copying S D)
      → Good c.src
      → length (rest c.src) < fuel
      → c.sent ≡ []
      → let (r, d) = copy_with_progress read write_all fuel total c in
        (r ≢ err out_of_fuel)
        × ((u : Unit {0})
            → r ≡ ok u
            → (written d.dst ≡ written c.dst ++ rest c.src)
              × (last_done d.sent ≡ length (rest c.src)))
  unfolding copy_with_progress
  copy_with_progress-Copied fuel total c g enough fresh =
      let (enough', copied) = copy_loop-Copied fuel total 0 c g enough (ap last_done fresh) in
      (enough', λ u e. ((copied u e).0, omega (arith, (copied u e).1)))

  copy_loop-total :
      Succeeds read Good
      → ((bs : Bytes) (d : D) → (write_all bs d).0 ≡ ok tt)
      → (fuel total done : ℕ) (c : Copying S D) → Good c.src
      → length (rest c.src) < fuel
      → (copy_loop read write_all fuel total done c).0 ≡ ok tt
  unfolding copy_loop
  copy_loop-total reads writes zero total done c g enough = absurd (omega arith)
  copy_loop-total reads writes (suc fuel) total done c g enough =
      let P = λ (p : Result CopyError (Unit {0}) × Copying S D). p.0 ≡ ok tt in
      bind_inside P reading_source (set_src c) (read chunk c.src) _
        (λ bs e.
          let size = ap length (stream.reads chunk c.src bs g e) in
          elim (Bool-cases (is_empty bs)) [
            | inl empty ↦ rw empty
            | inr more ↦ rw more (
                bind_inside P writing_destination (set_dst (set_src c (read chunk c.src).1))
                  (write_all bs c.dst) _
                  (λ u e'.
                    copy_loop-total reads writes fuel total (done + length bs) _
                      (stream.keeps chunk c.src g)
                      (omega (
                        arith,
                        size,
                        not-is_empty bs more,
                        length-append bs (rest (read chunk c.src).1),
                      )))
                  (λ x e'. absurd (cc (e', writes bs c.dst))))
          ])
        (λ x e. let (bs, e') = reads chunk c.src g in absurd (cc (e, e')))

  -- Between a stream and a sink of which every read and every write succeeds, a copy with fuel above
  -- the number of bytes to come succeeds.
  pub copy_with_progress-total :
      Succeeds read Good
      → ((bs : Bytes) (d : D) → (write_all bs d).0 ≡ ok tt)
      → (fuel total : ℕ) (c : Copying S D) → Good c.src
      → length (rest c.src) < fuel
      → (copy_with_progress read write_all fuel total c).0 ≡ ok tt
  unfolding copy_with_progress
  copy_with_progress-total reads writes fuel total c = copy_loop-total reads writes fuel total 0 c
