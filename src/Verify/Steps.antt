-- ===== src/Verify/Steps.antt =====
-- The steps of a verification before the whole-target check (tui/src/verify.rs, `run_verify`). The crates
-- gpt and fatfs are parameters that may move the handle, since a cloned file shares its position.
pub mod Laws
use nixnas.Base.{
  ℕ, Bool, true, false, not, ◌&&◌, ◌||◌, ◌==◌, ltb, leb, List, [], ◌∷◌, ◌++◌, Option, none, some,
  if◌then◌else◌, is_empty, is_some, take, drop, Result, ok, err, Io, bind, inside,
}
use nixnas.Base.Text.{Text, codes, text_eq, decimal}
use nixnas.Build.Steps.{StepState, running, skipped, fail}
use nixnas.Stream.{Bytes, IoError, SeekFrom, from_start, Read}
use nixnas.Verify.Events.{VerifyEvent, step, detail}
use nixnas.Verify.Hash.{read_exact}
use nixnas.Verify.Layout.{
  GptPart, FatEntry, Volume, esp_of, store_of, gpt_issues, gpt_line, fat_file_len, ukis_of,
  uki_issues, boot_issues, luks_magic, version_of, is_luks2, issue_if,
}
use nixnas.Verify.Window.{SliceCursor, new}

-- The context of a failed pass over the whole target is one for all its calls.
pub data VerifyError : Type 0 where
  failed : (context : Text) → IoError → VerifyError
  bad_range : Text → VerifyError
  issues_found : List Text → VerifyError

-- The handle, the events sent (the latest first), and the issues in order.
pub record Run (S : Type 0) : Type 0 where
  pub file : S
  pub sent : List VerifyEvent
  pub issues : List Text

-- The built image as the reference of a device: its size, and the opened file.
pub record Reference (T : Type 0) : Type 0 where
  pub size : Result IoError ℕ
  pub opened : Result IoError T

abbrev pub send : {S : Type 0} → VerifyEvent → Run S → Run S
send e r = record r { sent = e ∷ r.sent }

abbrev pub report : {S : Type 0} → List Text → Run S → Run S
report found r = record r { issues = r.issues ++ found }

-- `step(i, if ok { Ok } else { Fail })`
abbrev pub judged : {S : Type 0} → ℕ → List Text → Run S → Run S
judged i found r = send (step i (if is_empty found then StepState.ok else fail)) (report found r)

abbrev pub on_file : {S A : Type 0} → Text → Io S IoError A → Io (Run S) VerifyError A
on_file context m r = inside (failed context) (λ f. record r { file = f }) (m r.file)

-- `<` on strings.
unfoldable pub text_lt : Text → Text → Bool
text_lt [] [] = false
text_lt [] (_ ∷ _) = true
text_lt (_ ∷ _) [] = false
text_lt (c ∷ s) (d ∷ t) = let rest = text_lt s t in ltb c d || (c == d && rest)

-- The lines of the boot check.
unfoldable pub boot_lines : (ℕ → Text) → Volume → List VerifyEvent
boot_lines human_size volume =
    detail (
      codes "EFI/systemd/          "
      ++ (if is_some (volume (codes "EFI/systemd")) then codes "present" else codes "missing"))
    ∷ detail (elim (fat_file_len volume (codes "EFI/BOOT") (codes "BOOTX64.EFI")) [
      | none ↦ codes "EFI/BOOT/BOOTX64.EFI  missing"
      | some n ↦ codes "EFI/BOOT/BOOTX64.EFI  " ++ human_size n
    ])
    ∷ []

-- The lines of the LUKS check.
unfoldable pub luks_lines : Bytes → List VerifyEvent
unfolding text_eq decimal
luks_lines hdr =
    detail (
      codes "version  "
      ++ (decimal (version_of (drop 6 hdr))
          ++ (if version_of (drop 6 hdr) == 2 then codes " ✓" else codes " (expected 2) ✗")))
    ∷ detail (
        codes "magic    "
        ++ (if text_eq (take 6 hdr) luks_magic
            then codes "LUKS\\xba\\xbe ✓"
            else codes "not LUKS ✗"))
    ∷ []

abbrev not_after : FatEntry → FatEntry → Bool
not_after d e =
    text_lt d.file_name e.file_name || (text_eq d.file_name e.file_name && leb d.len e.len)

-- One step of `sort`, which orders by the name and then by the size.
unfoldable pub insert_uki : FatEntry → List FatEntry → List FatEntry
unfolding text_eq text_lt
insert_uki e [] = e ∷ []
insert_uki e (d ∷ ds) = let rest = insert_uki e ds in if not_after d e then d ∷ rest else e ∷ d ∷ ds

unfoldable pub sort_ukis : List FatEntry → List FatEntry
unfolding insert_uki
sort_ukis [] = []
sort_ukis (e ∷ es) = insert_uki e (sort_ukis es)

unfoldable pub show_ukis : (ℕ → Text) → List FatEntry → List VerifyEvent → List VerifyEvent
show_ukis human_size [] sent = sent
show_ukis human_size (e ∷ es) sent =
    show_ukis human_size es
      (detail (codes "EFI/Linux/" ++ (e.file_name ++ (codes "  " ++ human_size e.len))) ∷ sent)

abbrev pub list_ukis : (ℕ → Text) → Option (List FatEntry) → List VerifyEvent → List VerifyEvent
list_ukis human_size none sent = sent
list_ukis human_size (some es) sent = show_ukis human_size (sort_ukis (ukis_of es)) sent

module _ {S : Type 0} (human_size : ℕ → Text) (seek : SeekFrom → Io S IoError ℕ) (read : Read S)
    (clone : S → Result IoError S) (open_gpt : S → Result Text (List (Result Text GptPart)) × S)
    (open_fat : SliceCursor S → Result Text Volume × S) where
  -- The rows of the table are shown; one with no byte range ends the verification.
  unfoldable pub show_rows : List (Result Text GptPart) → Io (Run S) VerifyError (List GptPart)
  unfolding gpt_line
  show_rows [] r = (ok [], r)
  show_rows (err e ∷ rows) r = (err (bad_range e), r)
  show_rows (ok p ∷ rows) r =
      bind (show_rows rows (send (detail (gpt_line human_size p)) r)) (λ used q. (ok (p ∷ used), q))

  -- The byte ranges of the ESP and of the store.
  abbrev pub Ranges : Type 0
  Ranges = Option (ℕ × ℕ) × Option (ℕ × ℕ)

  abbrev pub judge_gpt : List GptPart → Io (Run S) VerifyError Ranges
  judge_gpt used r = (ok (esp_of used, store_of used), judged 0 (gpt_issues used) r)

  abbrev pub opened_gpt : Result Text (List (Result Text GptPart)) → Io (Run S) VerifyError Ranges
  opened_gpt (ok rows) r = bind (show_rows rows r) judge_gpt
  opened_gpt (err e) r = (
    ok (none, none),
    send (step 0 fail)
        (send (detail (codes "✗ GPT: " ++ e)) (report ((codes "GPT unreadable: " ++ e) ∷ []) r)),
  )

  abbrev pub cloned : Result IoError S → Io (Run S) VerifyError (Unit {0})
  cloned (ok _) r = (ok tt, r)
  cloned (err e) r = (err (failed (codes "cloning the target handle") e), r)

  -- `try_clone`: the handle itself stays.
  abbrev pub try_clone : Io (Run S) VerifyError (Unit {0})
  try_clone r = cloned (clone r.file) r

  -- Step 0
  unfoldable pub check_gpt : Io (Run S) VerifyError Ranges
  unfolding show_rows
  check_gpt r =
      bind (try_clone (send (step 0 running) r))
        (λ _ q. opened_gpt (open_gpt q.file).0 (record q { file = (open_gpt q.file).1 }))

  abbrev pub mounted : Result Text Volume → Run S → Run S
  mounted (ok volume) r =
      let booted =
        judged 1 (boot_issues volume)
          (record r { sent = boot_lines human_size volume ++ r.sent }) in
      let entries = volume (codes "EFI/Linux") in
      let found = uki_issues entries in
      let listing = send (step 2 running) booted in
      judged 2 found (record listing { sent = list_ukis human_size entries listing.sent })
  mounted (err e) r =
      send (step 2 skipped)
        (send (step 1 fail) (report ((codes "ESP not mountable as FAT: " ++ e) ∷ []) r))

  -- Steps 1 and 2
  unfoldable pub check_boot : Option (ℕ × ℕ) → Io (Run S) VerifyError (Unit {0})
  unfolding boot_lines new
  check_boot none r = (ok tt, send (step 2 skipped) (send (step 1 skipped) r))
  check_boot (some (start, len)) r = bind (try_clone (send (step 1 running) r)) (λ _ q.
      let fat = open_fat (new q.file start len) in
      (ok tt, mounted fat.0 (record q { file = fat.1 })))

  abbrev pub judge_luks : Bytes → Io (Run S) VerifyError (Unit {0})
  judge_luks hdr r = (
    ok tt,
    judged 3 (issue_if (not (is_luks2 hdr)) (codes "store partition carries no LUKS2 header"))
        (record r { sent = luks_lines hdr ++ r.sent }),
  )

  -- Step 3
  unfoldable pub check_luks : Option (ℕ × ℕ) → Io (Run S) VerifyError (Unit {0})
  unfolding read_exact
  check_luks none r = (ok tt, send (step 3 skipped) r)
  check_luks (some (start, _)) r =
      bind
        (on_file (codes "seeking to the store partition") (seek (from_start start))
          (send (step 3 running) r))
        (λ _ q. bind (on_file (codes "reading the LUKS header") (read_exact read 8) q) judge_luks)
