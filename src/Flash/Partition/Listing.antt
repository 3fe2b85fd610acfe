-- ===== src/Flash/Partition/Listing.antt =====
-- What the parser of sgdisk's listing reads (tui/src/flash.rs, `last_partition_number`), said of its lines.
use nixnas.Base.{
  ℕ, ◌≤◌, ◌^◌, ◌≡◌, refl, sym, ap, ◌∙◌, subst, ◌⊎◌, inl, inr, List, [], ◌∷◌, Option, none, some,
  arith, Bool-cases, ltb,
}
use mathlib.Core.List.{Memᴰ}
use mathlib.Core.Option.{some-injective}
use nixnas.Base.Text.{Text, parse_below}
use nixnas.Flash.Partition.{
  lines, first_word, number_of, row_numbers, keep_some, max, larger, last_number,
}
use nixnas.Flash.Partition.Report.{numbered}

-- A line of a listing that starts with the number of a partition.
abbrev pub IsRow : ℕ → List Text → Type 0
IsRow n ls =
    (l : Text) × Memᴰ l ls
    × (w : Text) × (first_word l ≡ some w)
    × (parse_below (2 ^ 32) w ≡ some n)

-- The greatest number of a listing.
abbrev pub IsLast : ℕ → Text → Type 0
IsLast n text = IsRow n (lines text) × ((m : ℕ) → IsRow m (lines text) → m ≤ n)

keep_some-cases :
    (o : Option ℕ) (ns : List ℕ) (n : ℕ) → Memᴰ n (keep_some o ns) → (o ≡ some n) ⊎ Memᴰ n ns
keep_some-cases none ns n m = inr m
keep_some-cases (some k) ns n (Memᴰ.head e) = inl (ap some (sym e))
keep_some-cases (some k) ns n (Memᴰ.tail m) = inr m

row_numbers-IsRow : (ls : List Text) (n : ℕ) → Memᴰ n (row_numbers ls) → IsRow n ls
unfolding row_numbers
row_numbers-IsRow [] n m = elim m [ ]
row_numbers-IsRow (l ∷ ls) n m =
    elim (keep_some-cases (number_of (2 ^ 32) (first_word l)) (row_numbers ls) n m) [
      | inl e ↦
          let (w, found, value) = numbered (2 ^ 32) (first_word l) n e in
          (l, Memᴰ.head refl, w, found, value)
      | inr rest ↦
          let (k, inside, w, found, value) = row_numbers-IsRow ls n rest in
          (k, Memᴰ.tail inside, w, found, value)
    ]

keep_some-tail : (o : Option ℕ) (ns : List ℕ) (n : ℕ) → Memᴰ n ns → Memᴰ n (keep_some o ns)
keep_some-tail none ns n m = m
keep_some-tail (some k) ns n m = Memᴰ.tail m

IsRow-row_numbers : (ls : List Text) (n : ℕ) → IsRow n ls → Memᴰ n (row_numbers ls)
unfolding row_numbers
IsRow-row_numbers [] n (k, inside, w, found, value) = elim inside [ ]
IsRow-row_numbers (l ∷ ls) n (k, Memᴰ.head same, w, found, value) =
    let here : number_of (2 ^ 32) (first_word l) ≡ some n =
      ap (λ x. number_of (2 ^ 32) (first_word x)) (sym same)
      ∙ ap (number_of (2 ^ 32)) found
      ∙ value in
    rw here (Memᴰ.head refl)
IsRow-row_numbers (l ∷ ls) n (k, Memᴰ.tail inside, w, found, value) =
    keep_some-tail _ _ n (IsRow-row_numbers ls n (k, inside, w, found, value))

-- The greatest of some numbers.
abbrev IsGreatest : ℕ → List ℕ → Type 0
IsGreatest n ns = Memᴰ n ns × ((m : ℕ) → Memᴰ m ns → m ≤ n)

max-some : (a : ℕ) (ns : List ℕ) → (n : ℕ) × (max (a ∷ ns) ≡ some n)
unfolding max
max-some a [] = (a, refl)
max-some a (b ∷ ns) =
    let (m, e) = max-some b ns in
    elim (Bool-cases (ltb m a)) [ inl h ↦ (a, rw (e, h)) | inr h ↦ (m, rw (e, h)) ]

bounds_onto :
    (a n : ℕ) (ns : List ℕ)
    → a ≤ n
    → ((k : ℕ) → Memᴰ k ns → k ≤ n)
    → (k : ℕ) → Memᴰ k (a ∷ ns)
    → k ≤ n
bounds_onto a n ns le most k (Memᴰ.head e) = omega arith
bounds_onto a n ns le most k (Memᴰ.tail m) = most k m

onto-IsGreatest :
    (a m n : ℕ) (ns : List ℕ) → IsGreatest m ns → larger a (some m) ≡ some n → IsGreatest n (a ∷ ns)
onto-IsGreatest a m n ns (mem, most) e = elim (Bool-cases (ltb m a)) [
  | inl h ↦
      let same : a ≡ n = ground arith in
      (
        Memᴰ.head (sym same),
        bounds_onto a n ns (omega arith) (λ k d. let le = most k d in ground arith),
      )
  | inr h ↦
      let same : m ≡ n = ground arith in
      (
        Memᴰ.tail (subst (λ k. Memᴰ k ns) same mem),
        bounds_onto a n ns (ground arith) (λ k d. let le = most k d in omega arith),
      )
]

max-IsGreatest : (ns : List ℕ) (n : ℕ) → max ns ≡ some n → IsGreatest n ns
unfolding max
max-IsGreatest [] n e = cc
max-IsGreatest (a ∷ []) n e =
    let same : a ≡ n = some-injective a n e in
    (Memᴰ.head (sym same), bounds_onto a n [] (omega arith) (λ k d. elim d [ ]))
max-IsGreatest (a ∷ b ∷ ns) n e =
    let (m, found) = max-some b ns in
    onto-IsGreatest a m n (b ∷ ns) (max-IsGreatest (b ∷ ns) m found) (ap (larger a) (sym found) ∙ e)

-- The number that is found in a listing is the last one there.
pub last_number-IsLast : (text : Text) (n : ℕ) → last_number text ≡ some n → IsLast n text
unfolding last_number
last_number-IsLast text n e =
    let (inside, most) = max-IsGreatest (row_numbers (lines text)) n e in
    (
      row_numbers-IsRow (lines text) n inside,
      λ m row. most m (IsRow-row_numbers (lines text) m row),
    )
