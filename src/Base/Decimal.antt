-- ===== src/Base/Decimal.antt =====
-- Printing a number and reading it back.
use Prim.Native.Nat.{ℕ, zero, suc, ◌+◌, ◌/◌, ◌%◌, ◌<◌}
use mathlib.Core.Path.{◌≡◌, refl, sym, ap, ◌∙◌}
use mathlib.Core.Bool.{true, false}
use mathlib.Core.Option.{some, some-injective}
use mathlib.Core.List.{[], ◌∷◌}
use mathlib.Core.Logic.{inl, inr}
use native.Mathlib.Omega.{arith}
use nixnas.Base.Tests.{ltb, Bool-cases}
use nixnas.Base.Lists.{is_empty, all}
use nixnas.Base.Text.{
  Text, is_digit, digits_onto, decimal, digits_value, parse_below, trim, trim_start, trim_end,
  keep_solid, unsigned,
}

-- Reading the digits of `n` in front of a text gives what reading the text from `n` on gives.
digits_value-digits_onto :
    (f n : ℕ) (out : Text) → n < f → digits_value 0 (digits_onto f n out) ≡ digits_value n out
unfolding digits_onto digits_value
digits_value-digits_onto zero n out h = absurd (omega arith)
digits_value-digits_onto (suc f) n out h = elim (Bool-cases (ltb n 10)) [
  | inl small ↦ ground arith
  | inr big ↦
      rw big
        (digits_value-digits_onto f (n / 10) ((48 + n % 10) ∷ out) (ground arith) ∙ ground arith)
]

all_digits-digits_onto :
    (f n : ℕ) (out : Text) → all is_digit out ≡ true → all is_digit (digits_onto f n out) ≡ true
unfolding digits_onto
all_digits-digits_onto zero n out h = h
all_digits-digits_onto (suc f) n out h = elim (Bool-cases (ltb n 10)) [
  | inl small ↦ ground arith
  | inr big ↦ rw big (all_digits-digits_onto f (n / 10) ((48 + n % 10) ∷ out) (ground arith))
]

some_digits-digits_onto : (f n : ℕ) (out : Text) → n < f → is_empty (digits_onto f n out) ≡ false
unfolding digits_onto
some_digits-digits_onto zero n out h = absurd (omega arith)
some_digits-digits_onto (suc f) n out h = elim (Bool-cases (ltb n 10)) [
  | inl small ↦ rw small
  | inr big ↦ rw big (some_digits-digits_onto f (n / 10) ((48 + n % 10) ∷ out) (ground arith))
]

keep_solid_digit : (c : ℕ) (t : Text) → is_digit c ≡ true → keep_solid c t ≡ c ∷ t
keep_solid_digit c [] h = ground arith
keep_solid_digit c (d ∷ t) h = refl

trim_end_digits : (t : Text) → all is_digit t ≡ true → trim_end t ≡ t
unfolding trim_end
trim_end_digits [] h = refl
trim_end_digits (c ∷ t) h =
    rw (trim_end_digits t (ground arith)) (keep_solid_digit c t (ground arith))

trim_start_digit : (c : ℕ) (t : Text) → is_digit c ≡ true → trim_start (c ∷ t) ≡ c ∷ t
unfolding trim_start
trim_start_digit c t h = ground arith

trim_digits : (t : Text) → all is_digit t ≡ true → trim t ≡ t
unfolding trim
trim_digits [] h = refl
trim_digits (c ∷ t) h =
    ap trim_end (trim_start_digit c t (ground arith)) ∙ trim_end_digits (c ∷ t) h

unsigned_digits :
    (t : Text) → all is_digit t ≡ true → is_empty t ≡ false → unsigned t ≡ digits_value 0 t
unsigned_digits [] h e = cc
unsigned_digits (c ∷ t) h e = ground arith

pub trim-decimal : (n : ℕ) → trim (decimal n) ≡ decimal n
unfolding decimal
trim-decimal n = trim_digits _ (all_digits-digits_onto (suc n) n [] refl)

-- A number below the limit is read back from its decimal text.
pub parse_below-decimal : (limit n : ℕ) → n < limit → parse_below limit (decimal n) ≡ some n
unfolding parse_below decimal
parse_below-decimal limit n h =
    let t = digits_onto (suc n) n [] in
    rw
      (unsigned_digits t (all_digits-digits_onto (suc n) n [] refl)
        (some_digits-digits_onto (suc n) n [] (omega arith)))
      (rw (digits_value-digits_onto (suc n) n [] (omega arith)) (ground arith))

-- Different numbers have different texts.
pub decimal-injective : (m n : ℕ) → decimal m ≡ decimal n → m ≡ n
decimal-injective m n e = some-injective m n (
    sym (parse_below-decimal (suc (m + n)) m (omega arith))
    ∙ ap (parse_below (suc (m + n))) e
    ∙ parse_below-decimal (suc (m + n)) n (omega arith))
