-- ===== src/Config/Laws.antt =====
-- Saving and loading the settings.
use nixnas.Base.{
  ℕ, ◌^◌, ◌<◌, ◌≡◌, refl, ◌∙◌, Bool, false, not, ◌&&◌, ◌||◌, [], ◌∷◌, Option, none, some,
  if◌then◌else◌, arith, ok, inl, inr, is_some, Option-cases,
}
use nixnas.Base.Text.{Text, text_eq, text_eq_iff}
use nixnas.Config.{
  Config, Value, string, integer, Table, lookup, remove, insert, insert_all, to_table, drop_missing,
  merge, save, load, from_table, Stored, table, missing, unreadable, unparsable, k_flake_dir,
  k_sb_keys_sops, k_build_memory_mib, k_image_attr, k_host_attr,
}

pub lookup-remove :
    (j k : Text) (t : Table) → lookup j (remove k t) ≡ (if text_eq j k then none else lookup j t)
unfolding lookup remove
lookup-remove j k [] = ground arith
lookup-remove j k ((i, v) ∷ t) =
    ground (arith, text_eq_iff j k, text_eq_iff k i, text_eq_iff j i, lookup-remove j k t)

pub lookup-insert :
    (j k : Text) (v : Value) (t : Table)
    → lookup j (insert k v t) ≡ (if text_eq j k then some v else lookup j t)
unfolding lookup insert
lookup-insert j k v t = ground (arith, lookup-remove j k t)

-- No key stands twice.
abbrev Distinct : Table → Type 0
Distinct [] = Unit
Distinct ((k, _) ∷ t) = (lookup k t ≡ none) × Distinct t

abbrev prefer : Option Value → Option Value → Option Value
prefer none w = w
prefer (some v) w = some v

lookup-insert_all :
    (j : Text) (own t : Table)
    → Distinct own
    → lookup j (insert_all own t) ≡ prefer (lookup j own) (lookup j t)
unfolding insert_all lookup
lookup-insert_all j [] t d = refl
lookup-insert_all j ((k, v) ∷ own) t (fresh, d) =
    lookup-insert_all j own (insert k v t) d
    ∙ ground (arith, lookup-insert j k v t, text_eq_iff j k)

lookup-drop_missing :
    (j k : Text) (own t : Table)
    → lookup j (drop_missing own k t)
      ≡ (if text_eq j k then (if is_some (lookup k own) then lookup j t else none) else lookup j t)
lookup-drop_missing j k own t = ground (arith, lookup-remove j k t)

abbrev stored : {A : Type 0} → (A → Value) → Option A → Option Value
stored f none = none
stored f (some a) = some (f a)

-- The keys that the program writes.
abbrev pub is_own : Text → Bool
is_own j =
    text_eq j k_flake_dir
    || text_eq j k_sb_keys_sops
    || text_eq j k_build_memory_mib
    || text_eq j k_image_attr
    || text_eq j k_host_attr

module _ (c : Config) where
  Distinct-to_table : Distinct (to_table c)
  unfolding to_table lookup text_eq
  Distinct-to_table = ground arith

  own_optional :
      (lookup k_sb_keys_sops (to_table c) ≡ stored string c.sb_keys_sops)
      × (lookup k_build_memory_mib (to_table c) ≡ stored integer c.build_memory_mib)
      × (lookup k_host_attr (to_table c) ≡ stored string c.host_attr)
  unfolding to_table lookup text_eq
  own_optional = ground arith

  own_required :
      (lookup k_flake_dir (to_table c) ≡ some (string c.flake_dir))
      × (lookup k_image_attr (to_table c) ≡ some (string c.image_attr))
  unfolding to_table lookup text_eq
  own_required = ground arith

  -- What a key has after the merge, from what the settings and the old table have.
  lookup-merge :
      (j : Text) (t : Table)
      → let own = to_table c in
        lookup j (merge c t)
        ≡ prefer (lookup j own) (
            lookup j (
              drop_missing own k_host_attr
                (drop_missing own k_build_memory_mib (drop_missing own k_sb_keys_sops t))))
  unfolding merge
  lookup-merge j t = lookup-insert_all j (to_table c) _ Distinct-to_table

  abbrev dropped₁ : Table → Table
  dropped₁ = drop_missing (to_table c) k_sb_keys_sops

  abbrev dropped₂ : Table → Table
  dropped₂ t = drop_missing (to_table c) k_build_memory_mib (dropped₁ t)

  lookup-dropped :
      (j : Text) (t : Table)
      → lookup j (drop_missing (to_table c) k_host_attr (dropped₂ t)) ≡ (
          if (text_eq j k_host_attr && not (is_some (lookup k_host_attr (to_table c))))
            || (text_eq j k_build_memory_mib
                && not (is_some (lookup k_build_memory_mib (to_table c))))
            || (text_eq j k_sb_keys_sops && not (is_some (lookup k_sb_keys_sops (to_table c))))
          then none
          else lookup j t)
  lookup-dropped j t =
      lookup-drop_missing j k_host_attr (to_table c) (dropped₂ t)
      ∙ ground (
        arith,
        lookup-drop_missing j k_build_memory_mib (to_table c) (dropped₁ t),
        lookup-drop_missing j k_sb_keys_sops (to_table c) t,
      )

  -- An optional key of the program is as the settings have it, an absent one included.
  optional_after :
      (j : Text) (v : Option Value) (t : Table)
      → lookup j (to_table c) ≡ v
      → (v ≡ none → lookup j (drop_missing (to_table c) k_host_attr (dropped₂ t)) ≡ none)
      → lookup j (merge c t) ≡ v
  optional_after j none t own gone = ground (arith, lookup-merge j t, gone refl)
  optional_after j (some v) t own gone = ground (arith, lookup-merge j t)

  -- A key of the program is as the settings have it, absent ones included: no stale value survives.
  own_after :
      (t : Table)
      → (lookup k_flake_dir (merge c t) ≡ some (string c.flake_dir))
        × (lookup k_sb_keys_sops (merge c t) ≡ stored string c.sb_keys_sops)
        × (lookup k_build_memory_mib (merge c t) ≡ stored integer c.build_memory_mib)
        × (lookup k_image_attr (merge c t) ≡ some (string c.image_attr))
        × (lookup k_host_attr (merge c t) ≡ stored string c.host_attr)
  unfolding text_eq
  own_after t = (
    optional_after k_flake_dir _ t own_required.0 (λ e. cc e),
    optional_after k_sb_keys_sops _ t own_optional.0
        (λ e. ground (arith, own_optional.0, lookup-dropped k_sb_keys_sops t)),
    optional_after k_build_memory_mib _ t own_optional.1
        (λ e. ground (arith, own_optional.1, lookup-dropped k_build_memory_mib t)),
    optional_after k_image_attr _ t own_required.1 (λ e. cc e),
    optional_after k_host_attr _ t own_optional.2
        (λ e. ground (arith, own_optional.2, lookup-dropped k_host_attr t)),
  )

  foreign_absent : (j : Text) → is_own j ≡ false → lookup j (to_table c) ≡ none
  unfolding to_table lookup
  foreign_absent j h = ground arith

  -- Keys that are not the program's keep their values when the settings are saved into a table.
  pub merge_keeps_foreign :
      (t : Table) (j : Text) → is_own j ≡ false → lookup j (merge c t) ≡ lookup j t
  merge_keeps_foreign t j h =
      ground (arith, lookup-merge j t, foreign_absent j h, lookup-dropped j t)

-- The tables that `save` starts from: that of the file, or an empty one.
abbrev pub old_table : Stored → Table
old_table (table t) = t
old_table missing = []
old_table unreadable = []
old_table unparsable = []

save-ok :
    (c : Config) (file : Stored) (writes : Bool) (t : Table)
    → save c file writes ≡ ok t
    → t ≡ merge c (old_table file)
unfolding save
save-ok c missing writes t h = ground arith
save-ok c unreadable writes t h = cc h
save-ok c unparsable writes t h = cc h
save-ok c (table old) writes t h = ground arith

load-merge :
    (c : Config) (t : Table)
    → ((n : ℕ) → c.build_memory_mib ≡ some n → n < 2 ^ 32)
    → load (table (merge c t)) ≡ ok c
unfolding load from_table
load-merge c t u32 =
    let (f, s, m, i, h) = own_after c t in
    elim (Option-cases c.build_memory_mib) [
      | inl absent ↦ ground arith
      | inr (n, present) ↦ ground (arith, u32 n present)
    ]

-- What a successful save leaves in the file, for settings whose memory size, if any, has 32 bits:
-- the settings are read back as they were, and every key that is not the program's is as it was
-- before.
pub load-save :
    (c : Config) (file : Stored) (writes : Bool) (t : Table) (j : Text)
    → ((n : ℕ) → c.build_memory_mib ≡ some n → n < 2 ^ 32)
    → is_own j ≡ false
    → save c file writes ≡ ok t
    → (load (table t) ≡ ok c) × (lookup j t ≡ lookup j (old_table file))
load-save c file writes t j u32 foreign h =
    rw (save-ok c file writes t h)
      (load-merge c (old_table file) u32, merge_keeps_foreign c (old_table file) j foreign)
