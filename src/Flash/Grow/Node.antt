-- ===== src/Flash/Grow/Node.antt =====
-- The node of a partition (tui/src/flash.rs, `partition_path`).
use nixnas.Base.{ℕ, ◌≡◌, refl, ap, ◌∙◌, true, [], ◌∷◌, ◌++◌, Bool-cases, inl, inr}
use nixnas.Base.Text.{Text, decimal, is_digit}
use nixnas.Flash.Grow.{last_digit, partition_path}

abbrev EndsInDigit : Text → Type 0
EndsInDigit dev = (s : Text) × (d : ℕ) × (dev ≡ s ++ (d ∷ [])) × (is_digit d ≡ true)

-- The node of a partition: its number behind the device's name, after a `p` if that ends in a digit.
abbrev pub IsNode : Text → ℕ → Text → Type 0
IsNode dev n part =
    (EndsInDigit dev → part ≡ dev ++ (112 ∷ decimal n))
    × (¬ EndsInDigit dev → part ≡ dev ++ decimal n)

last_digit-append : (s : Text) (d : ℕ) → last_digit (s ++ (d ∷ [])) ≡ is_digit d
last_digit-append [] d = refl
last_digit-append (c ∷ []) d = refl
last_digit-append (c ∷ e ∷ s) d = last_digit-append (e ∷ s) d

last_digit-EndsInDigit : (dev : Text) → last_digit dev ≡ true → EndsInDigit dev
last_digit-EndsInDigit [] e = cc e
last_digit-EndsInDigit (c ∷ []) e = ([], c, refl, e)
last_digit-EndsInDigit (c ∷ d ∷ t) e =
    let (s, x, same, digit) = last_digit-EndsInDigit (d ∷ t) e in
    (c ∷ s, x, ap (λ u. c ∷ u) same, digit)

pub partition_path-IsNode : (dev : Text) (n : ℕ) → IsNode dev n (partition_path dev n)
unfolding partition_path
partition_path-IsNode dev n = (
  λ (s, d, same, digit).
      let ends : last_digit dev ≡ true = ap last_digit same ∙ last_digit-append s d ∙ digit in
      rw ends refl,
  λ no_digit. elim (Bool-cases (last_digit dev)) [
    | inl t ↦ absurd (no_digit (last_digit-EndsInDigit dev t))
    | inr t ↦ rw t refl
  ],
)
