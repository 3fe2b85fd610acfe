-- ===== src/Screen/Configure/Laws.antt =====
-- What the form of CONFIGURE saves (tui/src/ui/configure.rs).
use nixnas.Base.{
  ℕ, ◌<◌, ◌^◌, ◌≡◌, refl, sym, ap, ◌∙◌, Bool, true, false, ltb, Option, none, some, Result, ok, err,
  is_empty, Bool-cases, Option-cases, inl, inr, arith,
}
use nixnas.Base.Decimal.{parse_below-decimal, trim-decimal}
use nixnas.Base.Text.{Text, trim, decimal, parse_below, fits, unsigned}
use nixnas.Config.{Config, Table, Stored, table, ConfigError, load, save, lookup}
use nixnas.Config.Laws.{load-save, is_own, old_table}
use nixnas.Flash.Copy.Laws.{is_empty→nil}
use nixnas.Screen.Configure.{
  ConfigureState, text_of, digits_of, from_config, value, if_given, or_default, memory_of,
  with_memory, to_config, Answers, Outcome, torn_by, saved, validated, save_form,
}

fits-below : (limit : ℕ) (o : Option ℕ) (n : ℕ) → fits limit o ≡ some n → n < limit
fits-below limit none n e = cc e
fits-below limit (some m) n e = elim (Bool-cases (ltb m limit)) [
  | inl small ↦ let same = rw small at e in ground arith
  | inr big ↦ let never = rw big at e in cc never
]

memory_of-below : (mem : Text) (n : ℕ) → memory_of mem ≡ ok (some n) → n < 2 ^ 32
unfolding parse_below
memory_of-below mem n e = elim (Bool-cases (is_empty mem)) [
  | inl empty ↦ let never = rw empty at e in cc never
  | inr given ↦
      let read = rw given at e in
      elim (Option-cases (parse_below (2 ^ 32) mem)) [
        | inl bad ↦ let never = rw bad at read in cc never
        | inr (m, good) ↦
            let same = rw good at read in fits-below (2 ^ 32) (unsigned mem) n (good ∙ (cc same))
      ]
]

abbrev memory_in : Result Text Config → Option ℕ
memory_in (err e) = none
memory_in (ok c) = c.build_memory_mib

-- A form that is valid has a memory size of 32 bits.
with_memory-below :
    (st : ConfigureState) (memory : Result Text (Option ℕ)) (c : Config) (n : ℕ)
    → with_memory st memory ≡ ok c
    → c.build_memory_mib ≡ some n
    → memory ≡ ok (some n)
with_memory-below st (err e) c n h m = cc h
with_memory-below st (ok memory) c n h m = ap ok (ap memory_in h ∙ m)

pub to_config-below :
    (st : ConfigureState) (c : Config) (n : ℕ)
    → to_config st ≡ ok c
    → c.build_memory_mib ≡ some n
    → n < 2 ^ 32
unfolding to_config
to_config-below st c n h m =
    memory_of-below (trim (value st 4)) n
      (with_memory-below st (memory_of (trim (value st 4))) c n h m)

-- A table that was written holds the new settings; without one the old settings stay.
abbrev pub Keeps : Config → Stored → Outcome → Type 0
Keeps old file r =
    ((t : Table) (j : Text)
      → r.written ≡ some t
      → is_own j ≡ false
      → (load (table t) ≡ ok r.cfg) × (lookup j t ≡ lookup j (old_table file)))
    × (r.written ≡ none → r.cfg ≡ old)

saved-Keeps :
    (path : Text) (old c : Config) (o : Answers) (st : ConfigureState)
    (w : Result ConfigError Table)
    → ((n : ℕ) → c.build_memory_mib ≡ some n → n < 2 ^ 32)
    → save c o.stored o.writes ≡ w
    → Keeps old o.stored (saved path old c o st w)
saved-Keeps path old c o st (ok t) u32 h = (
  λ t' j e foreign.
      let same : t ≡ t' = cc e in load-save c o.stored o.writes t' j u32 foreign (h ∙ ap ok same),
  λ e. cc e,
)
saved-Keeps path old c o st (err x) u32 h = (λ t' j e foreign. cc e, λ e. refl)

validated-Keeps :
    (path : Text) (old : Config) (o : Answers) (st : ConfigureState) (r : Result Text Config)
    → ((c : Config) (n : ℕ) → r ≡ ok c → c.build_memory_mib ≡ some n → n < 2 ^ 32)
    → Keeps old o.stored (validated path old o st r)
unfolding save
validated-Keeps path old o st (ok c) u32 =
    saved-Keeps path old c o st (save c o.stored o.writes) (λ n. u32 c n refl) refl
validated-Keeps path old o st (err x) u32 = (λ t' j e foreign. cc e, λ e. refl)

-- Saving the form, whatever was typed into it and whatever the file held: if the file is written, then
-- reading it back gives the settings that the program goes on with, and a key that is not the program's
-- is as it was; if it is not written, the program goes on with its old settings.
pub save_form-Keeps :
    (path : Text) (old : Config) (o : Answers) (st : ConfigureState)
    → Keeps old o.stored (save_form path old o st)
unfolding save_form
save_form-Keeps path old o st =
    validated-Keeps path old o st (to_config st) (λ c n. to_config-below st c n)

save-written :
    (c : Config) (file : Stored) (e : ConfigError)
    → save c file true ≡ err e
    → ¬ (e ≡ ConfigError.writing)
unfolding save
save-written c Stored.missing e h same = cc h
save-written c Stored.unreadable e h same = cc (h, same)
save-written c Stored.unparsable e h same = cc (h, same)
save-written c (table t) e h same = cc h

torn_by-none : (o : Answers) (e : ConfigError) → ¬ (e ≡ ConfigError.writing) → torn_by o e ≡ none
torn_by-none o ConfigError.reading h = refl
torn_by-none o ConfigError.parsing h = refl
torn_by-none o ConfigError.writing h = absurd (h refl)

saved-untorn :
    (path : Text) (old c : Config) (o : Answers) (st : ConfigureState)
    (w : Result ConfigError Table)
    → save c o.stored true ≡ w
    → (saved path old c o st w).torn ≡ none
saved-untorn path old c o st (ok t) h = refl
saved-untorn path old c o st (err e) h = torn_by-none o e (save-written c o.stored e h)

validated-untorn :
    (path : Text) (old : Config) (o : Answers) (st : ConfigureState) (r : Result Text Config)
    → o.writes ≡ true
    → (validated path old o st r).torn ≡ none
unfolding save
validated-untorn path old o st (ok c) writes =
    saved-untorn path old c o st (save c o.stored o.writes) (ap (save c o.stored) (sym writes))
validated-untorn path old o st (err x) writes = refl

-- Where a write succeeds, none has failed.
pub save_form-untorn :
    (path : Text) (old : Config) (o : Answers) (st : ConfigureState)
    → o.writes ≡ true
    → (save_form path old o st).torn ≡ none
unfolding save_form
save_form-untorn path old o st writes = validated-untorn path old o st (to_config st) writes

-- Settings as the form leaves them: no spaces around a text, no empty text.
abbrev pub IsTidyText : Text → Type 0
IsTidyText t = (trim t ≡ t) × (is_empty t ≡ false)

abbrev pub IsTidyOption : Option Text → Type 0
IsTidyOption none = Unit
IsTidyOption (some t) = IsTidyText t

abbrev pub IsMemory : Option ℕ → Type 0
IsMemory none = Unit
IsMemory (some n) = n < 2 ^ 32

pub record IsTidy (c : Config) : Type 0 where
  pub flake_dir : IsTidyText c.flake_dir
  pub image_attr : IsTidyText c.image_attr
  pub sb_keys_sops : IsTidyOption c.sb_keys_sops
  pub host_attr : IsTidyOption c.host_attr
  pub memory : IsMemory c.build_memory_mib

or_default-tidy : (d t : Text) → IsTidyText t → or_default d (trim t) ≡ t
or_default-tidy d t (same, given) = rw (same, given) refl

if_given-tidy : (o : Option Text) → IsTidyOption o → if_given (trim (text_of o)) ≡ o
unfolding trim
if_given-tidy none h = refl
if_given-tidy (some t) (same, given) = rw (same, given) refl

decimal-given : (n : ℕ) → n < 2 ^ 32 → is_empty (decimal n) ≡ false
unfolding parse_below
decimal-given n small = elim (Bool-cases (is_empty (decimal n))) [
  | inl empty ↦
      let value = parse_below-decimal (2 ^ 32) n small in
      let never = rw (is_empty→nil (decimal n) empty) at value in cc never
  | inr given ↦ given
]

memory_of-digits : (o : Option ℕ) → IsMemory o → memory_of (trim (digits_of o)) ≡ ok o
unfolding trim
memory_of-digits none h = refl
memory_of-digits (some n) small =
    rw (trim-decimal n) (rw (decimal-given n small, parse_below-decimal (2 ^ 32) n small) refl)

-- Settings that are tidy come back from the form as they were.
pub to_config-from_config :
    (c : Config) (yazi : Bool) → IsTidy c → to_config (from_config c yazi) ≡ ok c
unfolding to_config from_config
to_config-from_config c yazi h =
    rw
      (
        memory_of-digits c.build_memory_mib h.memory,
        or_default-tidy _ c.flake_dir h.flake_dir,
        or_default-tidy _ c.image_attr h.image_attr,
        if_given-tidy c.sb_keys_sops h.sb_keys_sops,
        if_given-tidy c.host_attr h.host_attr,
      )
      refl
