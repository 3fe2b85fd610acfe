-- ===== src/Tests/Files.antt =====
-- Settings, time stamps and sizes on concrete inputs.
use nixnas.Base.{ℕ, ◌+◌, ◌/◌, ◌≡◌, refl, [], ◌∷◌, Option, none, some, true, ok, arith}
use nixnas.Base.Text.{Text, codes, decimal}
use nixnas.Config.{Config, default, Table, Stored, table, Value, string, save, load, lookup}
use nixnas.Config.Laws.{load-save}
use nixnas.Flash.Disks.{RawSize, flexible_u64}
use nixnas.Flash.Disks.Laws.{flexible_u64_quoted}
use nixnas.Log.Timestamp.{fields}
use nixnas.Log.Timestamp.Calendar.{IsStampOf, fields-IsStampOf}

abbrev old : Stored
old =
    table ((codes "theme", string (codes "dark")) ∷ (codes "host_attr", string (codes "nas")) ∷ [])

abbrev saved : Table
saved =
    (codes "image_attr", string (codes "imageScript"))
    ∷ (codes "flake_dir", string (codes "."))
    ∷ (codes "theme", string (codes "dark"))
    ∷ []

load-save_example :
    (load (table saved) ≡ ok default)
    × (lookup (codes "theme") saved
        ≡ lookup (codes "theme") (
            (codes "theme", string (codes "dark"))
            ∷ (codes "host_attr", string (codes "nas"))
            ∷ []))
unfolding nixnas.Base.Text.text_eq save nixnas.Config.merge nixnas.Config.insert_all
    nixnas.Config.to_table nixnas.Config.insert lookup
load-save_example = load-save default old true saved (codes "theme") (λ n e. cc e) refl refl

flexible_u64_quoted_example :
    flexible_u64 (some (RawSize.s (decimal 62_109_253_632)))
    ≡ flexible_u64 (some (RawSize.i 62_109_253_632))
flexible_u64_quoted_example = flexible_u64_quoted 62_109_253_632 (omega arith)

fields-IsStampOf_example : IsStampOf 1_751_328_000 (fields 1_751_328_000)
fields-IsStampOf_example = fields-IsStampOf 1_751_328_000
