-- ===== src/Base/Utf8.antt =====
-- `String::from_utf8_lossy` of Rust's standard library: the code points that bytes encode, with U+FFFD for
-- each maximal part of an ill-formed sequence.
use Prim.Native.Nat.{ℕ, zero, suc, ◌+◌, ◌-◌, ◌*◌}
use mathlib.Core.Bool.{Bool, ◌&&◌}
use mathlib.Core.List.{List, [], ◌∷◌, ◌++◌}
use nixnas.Base.Tests.{leb, ltb, ◌==◌, if◌then◌else◌}
use nixnas.Base.Text.{Text}

abbrev replacement : ℕ
replacement = 65_533

-- A sequence that is still open: how many bytes are to come, the bounds of the next one, the value so far.
pub data Sequence : Type 0 where
  closed : Sequence
  awaits : (more low high value : ℕ) → Sequence

abbrev within : ℕ → ℕ → ℕ → Bool
within low high b = leb low b && leb b high

-- The first byte of a sequence.
abbrev opening : ℕ → Text × Sequence
opening b =
    if ltb b 128
    then (b ∷ [], closed)
    else if within 194 223 b
    then ([], awaits 1 128 191 (b - 192))
    else if b == 224
    then ([], awaits 2 160 191 0)
    else if b == 237
    then ([], awaits 2 128 159 13)
    else if within 225 239 b
    then ([], awaits 2 128 191 (b - 224))
    else if b == 240
    then ([], awaits 3 144 191 0)
    else if within 241 243 b
    then ([], awaits 3 128 191 (b - 240))
    else if b == 244
    then ([], awaits 3 128 143 4)
    else (replacement ∷ [], closed)

abbrev continued : ℕ → ℕ → Text × Sequence
continued zero value = (value ∷ [], closed)
continued (suc zero) value = (value ∷ [], closed)
continued (suc (suc n)) value = ([], awaits (suc n) 128 191 value)

-- A byte that does not continue an open sequence opens the next one.
abbrev taken : Sequence → ℕ → Text × Sequence
taken closed b = opening b
taken (awaits more low high value) b =
    if within low high b
    then continued more (value * 64 + (b - 128))
    else (replacement ∷ (opening b).0, (opening b).1)

unfoldable decoded_from : Sequence → List ℕ → Text
decoded_from closed [] = []
decoded_from (awaits _ _ _ _) [] = replacement ∷ []
decoded_from s (b ∷ bs) = (taken s b).0 ++ decoded_from (taken s b).1 bs

unfoldable pub from_utf8_lossy : List ℕ → Text
unfolding decoded_from
from_utf8_lossy bs = decoded_from closed bs
