-- ===== src/Tests/Hashing.antt =====
-- A small disk that passes a verification (tui/src/verify.rs), with a hasher that keeps what it is given.
use nixnas.Base.{
  ℕ, ◌≤◌, if◌then◌else◌, ◌≢◌, ◌≡◌, refl, sym, true, false, none, some, List, [], ◌∷◌, ◌++◌,
  append-nil, append_assoc, Result, ok, arith,
}
use nixnas.Base.Text.{Text, codes, text_eq}
use nixnas.Stream.{Bytes, from_end, pos}
use nixnas.Verify.Hash.{Hasher, hex, Pass, sha256_range, compare_loop}
use nixnas.Verify.Hash.Laws.{IsHasher, sha256_range-whole}
use nixnas.Verify.Hash.Compare.{compare_loop-Compares}
use nixnas.Verify.Layout.{GptPart, FatEntry, Volume}
use nixnas.Verify.Run.{Target, device, run_verify}
use nixnas.Verify.Run.Laws.{HasLayout, run_verify-HasLayout}
use nixnas.Verify.Window.{SliceCursor}
use nixnas.Tests.Streams.ListFile.{
  read_at, rest_at, Always, read_at-IsStream, seek_at, seek_at-IsSeekable,
}

abbrev keeper : Hasher Bytes
keeper = record { new = []; update = λ bs h. h ++ bs; finalize = λ h. h }

keeper-IsHasher : IsHasher keeper
keeper-IsHasher = record {
  update-nil = λ h. append-nil h;
  update-append = λ xs ys h. sym (append_assoc h xs ys);
}

-- An ESP of four bytes and a store with a LUKS2 header.
abbrev disk : Bytes
disk = 1 ∷ 2 ∷ 3 ∷ 4 ∷ 76 ∷ 85 ∷ 75 ∷ 83 ∷ 186 ∷ 190 ∷ 0 ∷ 2 ∷ 9 ∷ []

abbrev opened : Pass ℕ
opened = record { file = 5; sent = [] }

sha256_range-whole_example :
    let r = (sha256_range keeper (seek_at disk) (read_at disk) 3 (λ _. false) opened).0 in
    (r ≢ ok none) × ((t : Text) → r ≡ ok (some t) → t ≡ hex (1 ∷ 2 ∷ 3 ∷ []))
sha256_range-whole_example =
    sha256_range-whole keeper keeper-IsHasher (seek_at disk) (read_at disk) Always (rest_at disk)
      (read_at-IsStream disk) disk (seek_at-IsSeekable disk) 3 opened tt

compare_loop-Compares_example :
    let (r, (p, t)) =
      compare_loop keeper
        (seek_at disk)
        (read_at disk)
        (read_at disk)
        (λ _. false)
        3
        0
        3
        []
        []
        (record { file = 1; sent = [] }, 0) in
    Unit {0}
    × Unit {0}
    × ((hd hi : Bytes)
        → r ≡ ok (some (hd, hi))
        → (3 ≤ 12) × (3 ≤ 13) × (hd ≡ 2 ∷ 3 ∷ 4 ∷ []) × (hi ≡ 1 ∷ 2 ∷ 3 ∷ []))
compare_loop-Compares_example =
    compare_loop-Compares keeper keeper-IsHasher (seek_at disk) (read_at disk) Always (rest_at disk)
      (read_at-IsStream disk) (read_at disk) Always (rest_at disk) (read_at-IsStream disk)
      (λ _. false) 3 0 3 [] [] (record { file = 1; sent = [] }) 0 tt tt (omega arith)

abbrev esp : GptPart
esp = record { id = 1; name = []; start = 0; len = 4; is_esp = true; type_guid = [] }

abbrev store : GptPart
store = record { id = 2; name = []; start = 4; len = 9; is_esp = false; type_guid = [] }

abbrev file_of : Text → List FatEntry
file_of name = record { is_dir = false; file_name = name; len = 7 } ∷ []

unfoldable volume : Volume
unfolding text_eq
volume dir =
    if text_eq dir (codes "EFI/BOOT")
    then some (file_of (codes "BOOTX64.EFI"))
    else if text_eq dir (codes "EFI/Linux")
    then some (file_of (codes "nas.efi"))
    else none

abbrev no_size : ℕ → Text
no_size n = []

abbrev clone_at : ℕ → Result nixnas.Stream.IoError ℕ
clone_at s = ok s

abbrev gpt_at : ℕ → Result Text (List (Result Text GptPart)) × ℕ
gpt_at s = (ok (ok esp ∷ ok store ∷ []), 512)

abbrev fat_at : SliceCursor ℕ → Result Text Volume × ℕ
fat_at c = (ok volume, 3)

abbrev stick :
    Target no_size (seek_at disk) (read_at disk) clone_at gpt_at fat_at keeper (read_at disk)
stick = device (λ _. false) (some (record { size = ok 13; opened = ok 0 }))

passes :
    (run_verify no_size
      (seek_at disk)
      (read_at disk)
      clone_at
      gpt_at
      fat_at
      keeper
      (read_at disk)
      stick
      0).0
    ≡ ok (codes "PASS — the device carries the expected nixnas layout")
unfolding run_verify volume nixnas.Verify.Layout.gpt_issues nixnas.Verify.Layout.has_systemd_boot
    nixnas.Base.Text.ends_with nixnas.Verify.Layout.is_luks2
passes = refl

run_verify-HasLayout_example :
    (n : ℕ) × ((seek_at disk (from_end (pos 0)) 0).0 ≡ ok n)
    × HasLayout no_size
        (seek_at disk)
        (read_at disk)
        clone_at
        gpt_at
        fat_at
        keeper
        (read_at disk)
        Always
        (rest_at disk)
        (read_at-IsStream disk)
        disk
        (seek_at-IsSeekable disk)
        (λ s g. tt)
        (λ s a b g. tt)
        stick
        n
run_verify-HasLayout_example =
    run_verify-HasLayout no_size (seek_at disk) (read_at disk) clone_at gpt_at fat_at keeper
      (read_at disk) Always (rest_at disk) (read_at-IsStream disk) disk (seek_at-IsSeekable disk)
      (λ s g. tt) (λ s a b g. tt) stick 0
      (codes "PASS — the device carries the expected nixnas layout") tt passes
