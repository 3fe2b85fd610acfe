-- ===== src/Sudo/Reader/Seek.antt =====
-- Where a seek of the elevated reader lands (tui/src/sudo.rs, `SudoReader::seek`).
use nixnas.Base.{
  ℕ, suc, ◌+◌, ◌-◌, ◌%◌, ◌^◌, ◌<◌, ◌≡◌, refl, sym, ap, ltb, length, drop, Option, none, some, ok,
  err, arith, Bool-cases, inl, inr,
}
use mathlib.Core.Option.{some-injective}
use nixnas.Base.Text.{Text}
use nixnas.Stream.{
  Bytes, invalid_input, ℤ, pos, negsuc, SeekFrom, from_start, from_end, from_current, add_offset,
  seek_target,
}
use nixnas.Sudo.Reader.{State, seek, go_to}
use nixnas.Sudo.Reader.Laws.{Good, rest}

-- The position at a signed distance from another.
abbrev pub LandsFrom : ℕ → ℤ → ℕ → Type 0
LandsFrom n (pos k) q = q ≡ n + k
LandsFrom n (negsuc k) q = q + suc k ≡ n

-- The position that a seek asks for, on contents of a length, from a position.
abbrev pub Lands : ℕ → ℕ → SeekFrom → ℕ → Type 0
Lands len here (from_start o) q = q ≡ o
Lands len here (from_end o) q = LandsFrom len o q
Lands len here (from_current o) q = LandsFrom here o q

add_offset-LandsFrom : (n : ℕ) (o : ℤ) (q : ℕ) → LandsFrom n o q → add_offset n o ≡ some q
add_offset-LandsFrom n (pos k) q e = ap some (sym e)
add_offset-LandsFrom n (negsuc k) q e = ground arith

add_offset-misses : (n : ℕ) (o : ℤ) → ((q : ℕ) → ¬ LandsFrom n o q) → add_offset n o ≡ none
add_offset-misses n (pos k) never = absurd (never (n + k) refl)
add_offset-misses n (negsuc k) never = elim (Bool-cases (ltb k n)) [
  | inl t ↦ absurd (never (n - (k + 1)) (ground arith))
  | inr t ↦ rw t refl
]

seek_target-Lands :
    (len here : ℕ) (p : SeekFrom) (q : ℕ) → Lands len here p q → seek_target len here p ≡ some q
seek_target-Lands len here (from_start o) q e = ap some (sym e)
seek_target-Lands len here (from_end o) q e = add_offset-LandsFrom len o q e
seek_target-Lands len here (from_current o) q e = add_offset-LandsFrom here o q e

seek_target-misses :
    (len here : ℕ) (p : SeekFrom) → ((q : ℕ) → ¬ Lands len here p q) → seek_target len here p ≡ none
seek_target-misses len here (from_start o) never = absurd (never o refl)
seek_target-misses len here (from_end o) never = add_offset-misses len o never
seek_target-misses len here (from_current o) never = add_offset-misses here o never

go_to-Lands :
    (content : Bytes) (s : State) (o : Option ℕ) (q : ℕ)
    → o ≡ some q
    → q < 2 ^ 64
    → ((go_to s o).0 ≡ ok q) × (rest content (go_to s o).1 ≡ drop q content)
go_to-Lands content s none q e small = cc e
go_to-Lands content s (some t) q e small =
    let same : t ≡ q = some-injective t q e in
    let kept : t % 2 ^ 64 ≡ q = ground arith in (ap ok kept, ap (λ k. drop k content) kept)

-- For a reader that is sound for its device, and a seek of any kind (from the start, from the end,
-- from the position): to a position below 2^64 it succeeds, returns that position, and makes the
-- bytes from there on the next to come; to a place before the start it fails as invalid input, and
-- the reader stays as it was.
pub seek-Lands :
    (dev : Text) (content : Bytes) (p : SeekFrom) (s : State)
    → Good dev content s
    → let r = seek p s in
      ((q : ℕ)
        → Lands (length content) s.reader.here p q
        → q < 2 ^ 64
        → (r.0 ≡ ok q) × (rest content r.1 ≡ drop q content))
      × (((q : ℕ) → ¬ Lands (length content) s.reader.here p q)
          → (r.0 ≡ err invalid_input) × (r.1 ≡ s))
unfolding seek
seek-Lands dev content p s g =
    let len = g.same_len in
    (
      λ q lands small.
          go_to-Lands content s (seek_target s.reader.len s.reader.here p) q
            (rw len (seek_target-Lands (length content) s.reader.here p q lands)) small,
      λ never.
          let out : seek_target s.reader.len s.reader.here p ≡ none =
            rw len (seek_target-misses (length content) s.reader.here p never) in
          rw out (refl, refl),
    )
