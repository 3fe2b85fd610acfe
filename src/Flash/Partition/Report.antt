-- ===== src/Flash/Partition/Report.antt =====
-- What the parser of sgdisk's report on a partition reads (tui/src/flash.rs, `partition_info`),
-- said of the lines of the report.
use nixnas.Base.{
  ℕ, suc, ◌^◌, ◌≡◌, refl, sym, ap, ap₂, ◌∙◌, subst, ◌⊎◌, inl, inr, false, ◌==◌, List, [], ◌∷◌, ◌++◌,
  Option, none, some, replicate, Result, ok, err, arith, Bool-cases, Option-cases, ==_iff,
}
use mathlib.Core.List.{Memᴰ}
use mathlib.Core.Option.{some-injective}
use nixnas.Base.Text.{
  Text, codes, trim, strip_prefix, strip_prefix-append, starts_with, ends_with, parse_below,
}
use nixnas.Flash.Partition.{
  PartInfo, PartError, lines, first_word, first_word_of, number_of, after, drop_quotes,
  drop_end_quotes, keep_unquoted, name_of, info_of, read_info,
}

-- A line of the text says `rest` after the label.
abbrev pub Says : Text → Text → List Text → Type 0
Says label rest ls = (l : Text) × Memᴰ l ls × (trim l ≡ label ++ rest)

strip_prefix-some : (p s r : Text) → strip_prefix p s ≡ some r → s ≡ p ++ r
unfolding strip_prefix
strip_prefix-some [] s r e = some-injective s r e
strip_prefix-some (_ ∷ _) [] r e = cc e
strip_prefix-some (p ∷ ps) (c ∷ s) r e = elim (Bool-cases (p == c)) [
  | inl t ↦ ap₂ (λ x xs. x ∷ xs) (sym ((==_iff p c).0 t)) (strip_prefix-some ps s r (rw t at e))
  | inr t ↦ let never = rw t at e in cc never
]

after-Says :
    (label : Text) (ls : List Text) (t : Text)
    → after label ls ≡ some t
    → (rest : Text) × Says label rest ls × (trim rest ≡ t)
unfolding after
after-Says label [] t e = cc e
after-Says label (l ∷ ls) t e = elim (Option-cases (strip_prefix label (trim l))) [
  | inl other ↦
      let (rest, (m, inside, same), trimmed) = after-Says label ls t (rw other at e) in
      (rest, (m, Memᴰ.tail inside, same), trimmed)
  | inr (r, found) ↦ (
    r,
    (l, Memᴰ.head refl, strip_prefix-some label (trim l) r found),
    some-injective (trim r) t (rw found at e),
  )
]

after-none :
    (label : Text) (ls : List Text) → after label ls ≡ none → (rest : Text) → ¬ Says label rest ls
unfolding after
after-none label [] e rest (m, inside, says) = elim inside [ ]
after-none label (l ∷ ls) e rest (m, Memᴰ.head same, says) =
    let found : strip_prefix label (trim l) ≡ some rest =
      ap (strip_prefix label) (ap trim (sym same) ∙ says) ∙ strip_prefix-append label rest in
    let never = rw found at e in cc never
after-none label (l ∷ ls) e rest (m, Memᴰ.tail inside, says) =
    elim (Option-cases (strip_prefix label (trim l))) [
      | inl other ↦ after-none label ls (rw other at e) rest (m, inside, says)
      | inr (r, found) ↦ let never = rw found at e in cc never
    ]

-- The text between single quotes: none of them is left at its ends.
abbrev pub Unquoted : Text → Text → Type 0
Unquoted s name =
    (before after : ℕ) × (inner : Text) × (s ≡ replicate before 39 ++ inner)
    × (starts_with (39 ∷ []) inner ≡ false)
    × (inner ≡ name ++ replicate after 39)
    × (ends_with (39 ∷ []) name ≡ false)

drop_quotes-starts :
    (s : Text)
    → (n : ℕ) × (s ≡ replicate n 39 ++ drop_quotes s)
      × (starts_with (39 ∷ []) (drop_quotes s) ≡ false)
unfolding drop_quotes starts_with
drop_quotes-starts [] = (0, refl, refl)
drop_quotes-starts (c ∷ s) = elim (Bool-cases (c == 39)) [
  | inl t ↦
      let (n, same, bare) = drop_quotes-starts s in
      rw t (suc n, ap₂ (λ x xs. x ∷ xs) ((==_iff c 39).0 t) same, bare)
  | inr t ↦ rw t (0, refl, ground arith)
]

keep_unquoted-ends :
    (c : ℕ) (s t : Text) (n : ℕ)
    → s ≡ t ++ replicate n 39
    → ends_with (39 ∷ []) t ≡ false
    → (m : ℕ) × (c ∷ s ≡ keep_unquoted c t ++ replicate m 39)
      × (ends_with (39 ∷ []) (keep_unquoted c t) ≡ false)
unfolding ends_with
keep_unquoted-ends c s [] n same bare = elim (Bool-cases (c == 39)) [
  | inl q ↦ rw q (suc n, ap₂ (λ x xs. x ∷ xs) ((==_iff c 39).0 q) same, bare)
  | inr q ↦ rw q (n, ap (λ xs. c ∷ xs) same, ground arith)
]
keep_unquoted-ends c s (d ∷ t) n same bare = (n, ap (λ xs. c ∷ xs) same, ground arith)

drop_end_quotes-ends :
    (s : Text)
    → (n : ℕ) × (s ≡ drop_end_quotes s ++ replicate n 39)
      × (ends_with (39 ∷ []) (drop_end_quotes s) ≡ false)
unfolding drop_end_quotes ends_with
drop_end_quotes-ends [] = (0, refl, refl)
drop_end_quotes-ends (c ∷ s) =
    let (n, same, bare) = drop_end_quotes-ends s in
    keep_unquoted-ends c s (drop_end_quotes s) n same bare

-- The name in a report, which is empty where no line gives one.
abbrev pub IsName : List Text → Text → Type 0
IsName ls name =
    ((rest : Text) × Says (codes "Partition name:") rest ls × Unquoted (trim rest) name)
    ⊎ (((rest : Text) → ¬ Says (codes "Partition name:") rest ls) × (name ≡ []))

name_of-IsName :
    (ls : List Text) (o : Option Text)
    → after (codes "Partition name:") ls ≡ o
    → IsName ls (name_of o)
name_of-IsName ls none e = inr (after-none (codes "Partition name:") ls e, refl)
name_of-IsName ls (some t) e =
    let (rest, says, trimmed) = after-Says (codes "Partition name:") ls t e in
    let (before, start, inner_bare) = drop_quotes-starts t in
    let (behind, end, bare) = drop_end_quotes-ends (drop_quotes t) in
    inl (rest, says, (before, behind, drop_quotes t, trimmed ∙ start, inner_bare, end, bare))

-- What a report says of a partition.
pub record Reports (text : Text) (info : PartInfo) : Type 0 where
  pub type_text : Text
  pub type_said : Says (codes "Partition GUID code:") type_text (lines text)
  pub type_guid : first_word (trim type_text) ≡ some info.type_guid
  pub unique_text : Text
  pub unique_said : Says (codes "Partition unique GUID:") unique_text (lines text)
  pub unique_guid : trim unique_text ≡ info.unique_guid
  pub sector_text : Text
  pub sector_said : Says (codes "First sector:") sector_text (lines text)
  pub sector : Text
  pub sector_word : first_word (trim sector_text) ≡ some sector
  pub first_sector : parse_below (2 ^ 64) sector ≡ some info.first_sector
  pub name : IsName (lines text) info.name

abbrev info_in : PartInfo → Result PartError PartInfo → PartInfo
info_in other (ok info) = info
info_in other (err _) = other

info_of-ok :
    (t u : Option Text) (n : Option ℕ) (name : Text) (info : PartInfo)
    → info_of t u n name ≡ ok info
    → (t ≡ some info.type_guid)
      × (u ≡ some info.unique_guid)
      × (n ≡ some info.first_sector)
      × (name ≡ info.name)
info_of-ok none u n name info e = cc e
info_of-ok (some t) none n name info e = cc e
info_of-ok (some t) (some u) none name info e = cc e
info_of-ok (some t) (some u) (some n) name info e =
    let same = ap (info_in info) e in
    (
      ap (λ j. some j.type_guid) same,
      ap (λ j. some j.unique_guid) same,
      ap (λ j. some j.first_sector) same,
      ap (λ j. j.name) same,
    )

worded :
    (o : Option Text) (w : Text)
    → first_word_of o ≡ some w
    → (t : Text) × (o ≡ some t) × (first_word t ≡ some w)
worded none w e = cc e
worded (some t) w e = (t, refl, e)

pub numbered :
    (limit : ℕ) (o : Option Text) (n : ℕ)
    → number_of limit o ≡ some n
    → (w : Text) × (o ≡ some w) × (parse_below limit w ≡ some n)
numbered limit none n e = cc e
numbered limit (some w) n e = (w, refl, e)

-- A report that could be read says what was read.
pub read_info-Reports :
    (text : Text) (info : PartInfo) → read_info text ≡ ok info → Reports text info
unfolding read_info
read_info-Reports text info e =
    let ls = lines text in
    let (t, u, n, name) = info_of-ok _ _ _ _ info e in
    let (type, type_found, type_word) = worded _ _ t in
    let (type_text, type_said, type_trimmed) = after-Says _ ls type type_found in
    let (unique_text, unique_said, unique_trimmed) = after-Says _ ls _ u in
    let (sector, sector_found, sector_value) = numbered (2 ^ 64) _ _ n in
    let (rest, rest_found, rest_word) = worded _ _ sector_found in
    let (sector_text, sector_said, sector_trimmed) = after-Says _ ls rest rest_found in
    record {
      type_text = type_text;
      type_said = type_said;
      type_guid = ap first_word type_trimmed ∙ type_word;
      unique_text = unique_text;
      unique_said = unique_said;
      unique_guid = unique_trimmed;
      sector_text = sector_text;
      sector_said = sector_said;
      sector = sector;
      sector_word = ap first_word sector_trimmed ∙ rest_word;
      first_sector = sector_value;
      name = subst (IsName ls) name (name_of-IsName ls _ refl);
    }
