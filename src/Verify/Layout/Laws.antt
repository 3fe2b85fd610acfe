-- ===== src/Verify/Layout/Laws.antt =====
-- What a check of a verification has found when it leaves no issue, said of the partitions, the entries and
-- the bytes themselves (tui/src/verify.rs, `run_verify`).
use nixnas.Base.{
  ℕ, zero, suc, ◌≡◌, refl, sym, ap, ap₂, ◌∙◌, ◌⊎◌, inl, inr, Bool, true, false, not, ◌&&◌, ◌==◌,
  List, [], ◌∷◌, ◌++◌, Option, none, some, is_some, length, take, drop, map, find, keep_if,
  is_empty, arith, Bool-cases, ==_iff,
}
use mathlib.Core.List.{Memᴰ}
use nixnas.Base.Text.{Text, codes, text_eq, text_eq→eq, ends_with}
use nixnas.Flash.Disks.{lower, eq_ignore_ascii_case}
use nixnas.Stream.{Bytes}
use nixnas.Verify.Layout.{
  GptPart, FatEntry, Volume, esp_of, store_of, fat_file_len, has_systemd_boot, is_uki,
  is_file_named, len_of, is_store, range_of, gpt_issues, uki_issues, boot_issues, is_luks2,
  issue_if, luks_magic, version_of,
}

pub issue_if-empty : (b : Bool) (t : Text) → issue_if b t ≡ [] → b ≡ false
issue_if-empty true t e = cc e
issue_if-empty false t e = refl

pub not-false : (b : Bool) → not b ≡ false → b ≡ true
not-false true e = refl
not-false false e = cc e

and-both : (a b : Bool) → a && b ≡ true → (a ≡ true) × (b ≡ true)
and-both true b e = (refl, e)
and-both false b e = cc e

-- What a search has found stands in the list and passes the test.
find-Mem :
    {A : Type 0} (p : A → Bool) (xs : List A)
    → is_some (find p xs) ≡ true
    → (x : A) × (find p xs ≡ some x) × Memᴰ x xs × (p x ≡ true)
find-Mem p [] e = cc e
find-Mem p (x ∷ xs) e = elim (Bool-cases (p x)) [
  | inl t ↦ (x, rw t refl, Memᴰ.head refl, t)
  | inr t ↦
      let (y, found, inside, passes) = find-Mem p xs (rw t at e) in
      (y, rw t found, Memᴰ.tail inside, passes)
]

keep_if-Mem :
    {A : Type 0} (p : A → Bool) (xs : List A)
    → is_empty (keep_if p xs) ≡ false
    → (x : A) × Memᴰ x xs × (p x ≡ true)
keep_if-Mem p [] e = cc e
keep_if-Mem p (x ∷ xs) e = elim (Bool-cases (p x)) [
  | inl t ↦ (x, Memᴰ.head refl, t)
  | inr t ↦ let (y, inside, passes) = keep_if-Mem p xs (rw t at e) in (y, Memᴰ.tail inside, passes)
]

ends_with-append :
    (suffix t : Text) → ends_with suffix t ≡ true → (stem : Text) × (t ≡ stem ++ suffix)
unfolding ends_with
ends_with-append suffix [] e = ([], sym (text_eq→eq suffix [] e))
ends_with-append suffix (c ∷ t) e = elim (Bool-cases (text_eq suffix (c ∷ t))) [
  | inl whole ↦ ([], sym (text_eq→eq suffix (c ∷ t) whole))
  | inr more ↦
      let (stem, same) = ends_with-append suffix t (rw more at e) in
      (c ∷ stem, ap (λ u. c ∷ u) same)
]

version_of-two : (b : Bytes) → version_of b ≡ 2 → b ≡ 0 ∷ 2 ∷ []
version_of-two [] e = absurd (omega arith)
version_of-two (a ∷ []) e = absurd (omega arith)
version_of-two (hi ∷ lo ∷ []) e =
    let high : hi ≡ 0 = omega arith in
    let low : lo ≡ 2 = omega arith in ap₂ (λ a b. a ∷ b ∷ []) high low
version_of-two (a ∷ b ∷ c ∷ d) e = absurd (omega arith)

take-drop : (n : ℕ) (b : Bytes) → take n b ++ drop n b ≡ b
take-drop zero b = refl
take-drop (suc n) [] = refl
take-drop (suc n) (x ∷ b) = ap (λ u. x ∷ u) (take-drop n b)

-- The header of LUKS2: its magic "LUKS\\xba\\xbe", and 2 as a big-endian number of two bytes.
pub is_luks2-bytes :
    (hdr : Bytes) → is_luks2 hdr ≡ true → hdr ≡ 76 ∷ 85 ∷ 75 ∷ 83 ∷ 186 ∷ 190 ∷ 0 ∷ 2 ∷ []
unfolding is_luks2
is_luks2-bytes hdr e =
    let (magic, version) =
      and-both (text_eq (take 6 hdr) luks_magic) (version_of (drop 6 hdr) == 2) e in
    sym (take-drop 6 hdr)
    ∙ ap₂ (λ a b. a ++ b) (text_eq→eq (take 6 hdr) luks_magic magic)
        (version_of-two (drop 6 hdr) (ground arith))

-- A loader of systemd-boot: a file of that name, in whatever case, or its directory.
abbrev pub HasLoader : Volume → Type 0
HasLoader volume =
    ((entries : List FatEntry) × (volume (codes "EFI/BOOT") ≡ some entries)
      × (e : FatEntry) × Memᴰ e entries
      × (e.is_dir ≡ false)
      × (map lower e.file_name ≡ codes "bootx64.efi"))
    ⊎ (is_some (volume (codes "EFI/systemd")) ≡ true)

-- A kernel: a file whose name ends so, in whatever case.
abbrev pub HasKernel : Volume → Type 0
HasKernel volume =
    (entries : List FatEntry) × (volume (codes "EFI/Linux") ≡ some entries)
    × (e : FatEntry) × Memᴰ e entries
    × (e.is_dir ≡ false)
    × (stem : Text) × (map lower e.file_name ≡ stem ++ codes ".efi")

not-true : (b : Bool) → not b ≡ true → b ≡ false
not-true true e = cc e
not-true false e = refl

len_of-some : (o : Option FatEntry) → is_some (len_of o) ≡ true → is_some o ≡ true
len_of-some none e = e
len_of-some (some x) e = refl

same_lower : (a b : Text) → eq_ignore_ascii_case a b ≡ true → map lower a ≡ map lower b
unfolding eq_ignore_ascii_case
same_lower [] [] e = refl
same_lower [] (_ ∷ _) e = cc e
same_lower (_ ∷ _) [] e = cc e
same_lower (c ∷ a) (d ∷ b) e =
    let (first, others) = and-both (lower c == lower d) (eq_ignore_ascii_case a b) e in
    ap₂ (λ x xs. x ∷ xs) ((==_iff (lower c) (lower d)).0 first) (same_lower a b others)

boot_file :
    (volume : Volume) (o : Option (List FatEntry))
    → volume (codes "EFI/BOOT") ≡ o
    → is_some (fat_file_len volume (codes "EFI/BOOT") (codes "BOOTX64.EFI")) ≡ true
    → HasLoader volume
unfolding fat_file_len eq_ignore_ascii_case
boot_file volume none at e = let never = rw at at e in cc never
boot_file volume (some entries) at e =
    let (x, _, inside, passes) =
      find-Mem (is_file_named (codes "BOOTX64.EFI")) entries (len_of-some _ (rw at at e)) in
    let (file, same) =
      and-both (not x.is_dir) (eq_ignore_ascii_case x.file_name (codes "BOOTX64.EFI")) passes in
    inl (entries, at, x, inside, not-true _ file, same_lower x.file_name (codes "BOOTX64.EFI") same)

pub boot_issues-HasLoader : (volume : Volume) → boot_issues volume ≡ [] → HasLoader volume
unfolding has_systemd_boot
boot_issues-HasLoader volume e =
    let found = not-false _ (issue_if-empty _ _ e) in
    elim (Bool-cases (is_some (fat_file_len volume (codes "EFI/BOOT") (codes "BOOTX64.EFI")))) [
      | inl file ↦ boot_file volume _ refl file
      | inr no_file ↦ inr (rw no_file at found)
    ]

kernels_in :
    (volume : Volume) (o : Option (List FatEntry))
    → volume (codes "EFI/Linux") ≡ o
    → uki_issues o ≡ []
    → HasKernel volume
kernels_in volume none at e = cc e
kernels_in volume (some entries) at e =
    let (x, inside, passes) = keep_if-Mem is_uki entries (issue_if-empty _ _ e) in
    let (file, ends) =
      and-both (not x.is_dir) (ends_with (codes ".efi") (map lower x.file_name)) passes in
    let (stem, same) = ends_with-append (codes ".efi") (map lower x.file_name) ends in
    (entries, at, x, inside, not-true _ file, stem, same)

pub uki_issues-HasKernel :
    (volume : Volume) → uki_issues (volume (codes "EFI/Linux")) ≡ [] → HasKernel volume
uki_issues-HasKernel volume e = kernels_in volume _ refl e

-- A table of two partitions, one of them the ESP and one not, at these byte ranges.
pub record HasPartitions (used : List GptPart) (ranges : Option (ℕ × ℕ) × Option (ℕ × ℕ))
    : Type 0 where
  pub two : length used ≡ 2
  pub esp : GptPart
  pub esp_inside : Memᴰ esp used
  pub esp_type : esp.is_esp ≡ true
  pub esp_range : ranges.0 ≡ some (esp.start, esp.len)
  pub store : GptPart
  pub store_inside : Memᴰ store used
  pub store_type : store.is_esp ≡ false
  pub store_range : ranges.1 ≡ some (store.start, store.len)

pub append-empty {ℓ} : {A : Type ℓ} (xs ys : List A) → xs ++ ys ≡ [] → (xs ≡ []) × (ys ≡ [])
append-empty [] ys e = (refl, e)
append-empty (x ∷ xs) ys e = cc e

range_of-some : (o : Option GptPart) → is_some (range_of o) ≡ true → is_some o ≡ true
range_of-some none e = e
range_of-some (some p) e = refl

pub gpt_issues-HasPartitions :
    (used : List GptPart) → gpt_issues used ≡ [] → HasPartitions used (esp_of used, store_of used)
unfolding gpt_issues
gpt_issues-HasPartitions used e =
    let (a, b) = append-empty _ _ e in
    let (c, d) = append-empty _ _ b in
    let two : not (length used == 2) ≡ false = issue_if-empty _ _ a in
    let (esp, esp_found, esp_inside, esp_type) =
      find-Mem (λ p. p.is_esp) used (range_of-some _ (not-false _ (issue_if-empty _ _ c))) in
    let (store, store_found, store_inside, store_type) =
      find-Mem is_store used (range_of-some _ (not-false _ (issue_if-empty _ _ d))) in
    record {
      two = ground arith;
      esp = esp;
      esp_inside = esp_inside;
      esp_type = esp_type;
      esp_range = ap range_of esp_found;
      store = store;
      store_inside = store_inside;
      store_type = not-true _ store_type;
      store_range = ap range_of store_found;
    }
