-- ===== src/Sudo/Reader/Stream.antt =====
-- `SudoReader` (tui/src/sudo.rs) as a stream.
use nixnas.Base.{
  ℕ, ◌-◌, ◌%◌, ◌≤◌, ◌<◌, ◌^◌, min, ◌≡◌, refl, ap, List, [], leb, ◌==◌, drop, Result, ok, arith,
  Bool-cases, inl, inr, drop_all, Option, none, some,
}
use nixnas.Base.Text.{Text}
use nixnas.Stream.{Bytes, IoError, seek_target, IsStream, IsSeekable}
use nixnas.Sudo.Command.{Command, Output}
use nixnas.Sudo.Reader.{State, block, read, seek, go_to}
use nixnas.Sudo.Reader.Laws.{DdReads, Good, rest, Gives, read_small-Gives, read_large-Gives}

module _ (run : List Command → Command → Result IoError Output) (dev : Text) (content : Bytes)
    (dd : DdReads run dev content) where
  Gives-nothing :
      (size : ℕ) (s : State)
      → Good dev content s
      → (0 < size → rest content s ≡ [])
      → Gives dev content size s (ok [], s)
  Gives-nothing size s g at_end =
      (g, λ bs e. let e' : [] ≡ bs = cc e in rw (← e') (refl, omega arith, λ _ pos. at_end pos))

  Gives-wider :
      (want size : ℕ) (s : State) (p : Result IoError Bytes × State)
      → want ≤ size
      → 0 < want
      → Gives dev content want s p
      → Gives dev content size s p
  Gives-wider want size s p le pos (good, gives) = (
    good,
    λ bs e.
        let (whole, short, ends) = gives bs e in (whole, omega arith, λ empty _. ends empty pos),
  )

  -- Every read gives the next bytes of the device, through the cache or not.
  pub read-Gives :
      (size : ℕ) (s : State) → Good dev content s → Gives dev content size s (read run size s)
  unfolding read
  read-Gives size s g =
      let want = min size (s.reader.len - s.reader.here) in
      elim (Bool-cases (leb s.reader.len s.reader.here)) [
        | inl over ↦ rw over (
            Gives-nothing size s g λ _. drop_all s.reader.here content (ground (arith, g.same_len)))
        | inr inside ↦ rw inside (elim (Bool-cases (want == 0)) [
          | inl none' ↦ rw none' (Gives-nothing size s g λ pos. absurd (ground arith))
          | inr some' ↦ rw some' (elim (Bool-cases (leb block want)) [
            | inl large ↦ rw large (
                Gives-wider want size s _ (omega arith) (ground arith)
                  (read_large-Gives run dev content dd want s g (ground arith) (ground arith)))
            | inr small ↦ rw small (
                Gives-wider want size s _ (omega arith) (ground arith)
                  (read_small-Gives run dev content dd want s g (ground arith)))
          ])
        ])
      ]

  -- Where a successful `dd` prints the bytes that it documents, an elevated reader is a stream over
  -- its device: whatever mixture of block reads, cache hits and refills serves the calls, the bytes
  -- come in order, none is lost, and an empty read is the end.
  pub read-IsStream : IsStream (read run) (Good dev content) (rest content)
  read-IsStream = record {
    keeps = λ n s g. (read-Gives n s g).0;
    reads = λ n s bs g e. ((read-Gives n s g).1 bs e).0;
    bounded = λ n s bs g e. ((read-Gives n s g).1 bs e).1;
    ends = λ n s g e pos. ((read-Gives n s g).1 [] e).2 refl pos;
  }

  go_to-Good :
      (s : State) (target : Option ℕ) → Good dev content s → Good dev content (go_to s target).1
  go_to-Good s none g = g
  go_to-Good s (some p) g = record {
    same_dev = g.same_dev;
    same_len = g.same_len;
    cached = g.cached;
  }

  -- The same as what the program relies on in a seekable reader.
  seek-IsSeekable : IsSeekable seek (Good dev content) (rest content) content
  unfolding seek
  seek-IsSeekable = record {
    keeps = λ p s g. go_to-Good s (seek_target s.reader.len s.reader.here p) g;
    moves = λ p s {q} small g e.
        ap (λ k. drop k content) (let same : p % 2 ^ 64 ≡ p = omega arith in same);
  }
