-- ===== src/Tests/Streams/ListFile.antt =====
-- A file of fixed contents with a position, and a growing one.
use nixnas.Base.{
  ℕ, ◌+◌, ◌<◌, ◌≡◌, refl, sym, ap, ◌∙◌, [], ◌∷◌, ◌++◌, length, take, drop, Result, ok, err, Io,
  Option, none, some, arith, drop-drop, take-append-drop, length-take, suc, zero,
}
use nixnas.Stream.{
  Bytes, IoError, invalid_input, SeekFrom, seek_target, Read, IsStream, IsSeekable, Succeeds,
}
use nixnas.Flash.Copy.{Write}
use nixnas.Flash.Copy.Transfer.{IsSink}

abbrev pub Always : ℕ → Type 0
Always _ = Unit

abbrev pub read_at : Bytes → Read ℕ
read_at content n p = (ok (take n (drop p content)), p + n)

abbrev pub rest_at : Bytes → ℕ → Bytes
rest_at content p = drop p content

take_none : (n : ℕ) (xs : Bytes) → take n xs ≡ [] → 0 < n → xs ≡ []
take_none n [] e h = refl
take_none zero (x ∷ xs) e h = absurd (omega arith)
take_none (suc n) (x ∷ xs) e h = cc e

pub read_at-IsStream : (content : Bytes) → IsStream (read_at content) Always (rest_at content)
read_at-IsStream content = record {
  keeps = λ n p g. tt;
  reads = λ n p bs g e.
      let e' : take n (drop p content) ≡ bs = cc e in
      rw (← e') (
        ap (λ ys. take n (drop p content) ++ ys) (sym (drop-drop n p (p + n) content refl))
        ∙ take-append-drop n (drop p content));
  bounded = λ n p bs g e.
      let e' : take n (drop p content) ≡ bs = cc e in
      omega (arith, ap length e', length-take n (drop p content));
  ends = λ n p g e pos. take_none n (drop p content) (cc e) pos;
}

pub read_at-Succeeds : (content : Bytes) → Succeeds (read_at content) Always
read_at-Succeeds content n p g = (take n (drop p content), refl)

abbrev moved : ℕ → Option ℕ → Result IoError ℕ × ℕ
moved p none = (err invalid_input, p)
moved p (some q) = (ok q, q)

abbrev pub seek_at : Bytes → SeekFrom → Io ℕ IoError ℕ
seek_at content s p = moved p (seek_target (length content) p s)

pub seek_at-IsSeekable :
    (content : Bytes) → IsSeekable (seek_at content) Always (rest_at content) content
seek_at-IsSeekable content = record { keeps = λ s p g. tt; moves = λ p s {q} small g e. refl }

abbrev pub append_to : Write Bytes
append_to bs d = (ok tt, d ++ bs)

pub append_to-IsSink : IsSink append_to (λ d. d)
append_to-IsSink = record { writes = λ bs d {u} e. refl }

pub append_to-ok : (bs d : Bytes) → (append_to bs d).0 ≡ ok tt
append_to-ok bs d = refl
