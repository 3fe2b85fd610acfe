-- ===== src/Verify/Run.antt =====
-- `run_verify` (tui/src/verify.rs): all checks of a target, in order, each issue collected.
pub mod Laws
use nixnas.Base.{
  ℕ, ◌-◌, min, Bool, true, false, not, ◌&&◌, ◌||◌, ◌==◌, ltb, leb, List, [], ◌∷◌, ◌++◌, Option,
  none, some, if◌then◌else◌, is_empty, is_some, length, take, drop, Result, ok, err, Io, bind,
  inside,
}
use nixnas.Base.Text.{Text, codes, text_eq, decimal}
use nixnas.Build.Steps.{StepState, running, skipped, fail}
use nixnas.Stream.{Bytes, IoError, pos, SeekFrom, from_start, from_end, Read}
use nixnas.Verify.Events.{VerifyEvent, step, detail}
use nixnas.Verify.Hash.{Hasher, hex, read_exact, Pass, sha256_range, compare_loop}
use nixnas.Verify.Layout.{
  GptPart, FatEntry, Volume, esp_of, store_of, gpt_issues, gpt_line, fat_file_len, ukis_of,
  uki_issues, boot_issues, luks_magic, version_of, is_luks2, issue_if,
}
use nixnas.Verify.Window.{SliceCursor, new}
use nixnas.Verify.Steps.{
  VerifyError, failed, issues_found, Run, Reference, send, report, on_file, check_gpt, check_boot,
  check_luks,
}

module _ {S T H : Type 0} (human_size : ℕ → Text) (seek : SeekFrom → Io S IoError ℕ) (read : Read S)
    (clone : S → Result IoError S) (open_gpt : S → Result Text (List (Result Text GptPart)) × S)
    (open_fat : SliceCursor S → Result Text Volume × S) (hasher : Hasher H)
    (read_image : Read T) where
  -- The file of a pass over the target, put back with the events.
  abbrev pub in_pass : {A : Type 0} → Text → Io (Pass S) IoError A → Io (Run S) VerifyError A
  in_pass context m r =
      inside (failed context) (λ (p : Pass S). record r { file = p.file; sent = p.sent })
        (m (record { file = r.file; sent = r.sent }))

  -- `expect`: a pass that may not be skipped gives a digest; the source panics otherwise.
  abbrev pub show_digest : Option Text → Io (Run S) VerifyError (Unit {0})
  show_digest none r = (ok tt, r)
  show_digest (some digest) r =
      (ok tt, send (step 4 StepState.ok) (send (detail (codes "sha256  " ++ digest)) r))

  -- Step 4 of an image
  unfoldable pub check_image : ℕ → Io (Run S) VerifyError (Unit {0})
  unfolding sha256_range
  check_image target_len r =
      bind
        (in_pass (codes "hashing") (sha256_range hasher seek read target_len (λ _. false)) (
          send (VerifyEvent.phase (codes "SHA-256 over the whole image"))
            (send (step 4 running) r)))
        show_digest

  abbrev pub smaller : ℕ → ℕ → Text
  smaller target_len img_len =
      codes "device ("
      ++ (human_size target_len
          ++ (codes ") is SMALLER than the image ("
              ++ (human_size img_len ++ codes ") — the flash cannot be complete")))

  abbrev pub differ : Text
  differ = codes "device bytes DIFFER from the built image"

  abbrev pub compared : ℕ → ℕ → Option (H × H) → Io (Run S) VerifyError (Unit {0})
  compared target_len img_len none r = (
    ok tt,
    send (step 4 skipped) (send (detail (codes "(fidelity compare skipped by operator)")) r),
  )
  compared target_len img_len (some (hd, hi)) r =
      let dev = hex (hasher.finalize hd) in
      let img = hex (hasher.finalize hi) in
      let same = text_eq dev img in
      (
        ok tt,
        send (step 4 (if same && leb img_len target_len then StepState.ok else fail)) (
            report (issue_if (not same) differ) (
              send (detail (codes "image   sha256 " ++ img))
                (send (detail (codes "device  sha256 " ++ dev)) r))),
      )

  abbrev pub in_both : {A : Type 0} → T → Io (Pass S × T) IoError A → Io (Run S) VerifyError A
  in_both t m r =
      inside (failed (codes "comparing"))
        (λ (s : Pass S × T). record r { file = s.0.file; sent = s.0.sent })
        (m (record { file = r.file; sent = r.sent }, t))

  abbrev pub compare : (ℕ → Bool) → ℕ → ℕ → T → Io (Run S) VerifyError (Unit {0})
  compare skip target_len img_len t r =
      bind (on_file (codes "rewinding the device") (seek (from_start 0)) r) (λ _ q.
        let common = min img_len target_len in
        bind
          (in_both t
            (compare_loop hasher seek read read_image skip common 0 common hasher.new hasher.new) q)
          (compared target_len img_len))

  abbrev pub opened_image :
      (ℕ → Bool) → ℕ → ℕ → Result IoError T → Io (Run S) VerifyError (Unit {0})
  opened_image skip target_len img_len (err e) r = (err (failed (codes "opening the image") e), r)
  opened_image skip target_len img_len (ok t) r = compare skip target_len img_len t r

  abbrev pub sized_image :
      (ℕ → Bool) → ℕ → Result IoError ℕ → Result IoError T → Io (Run S) VerifyError (Unit {0})
  sized_image skip target_len (err e) opened r = (err (failed (codes "stat of the image") e), r)
  sized_image skip target_len (ok img_len) opened r = opened_image skip target_len img_len opened (
      send (VerifyEvent.phase (codes "Flash fidelity — hashing device vs image"))
        (report (issue_if (ltb target_len img_len) (smaller target_len img_len)) r))

  -- Step 4 of a device
  unfoldable pub check_device :
      (ℕ → Bool) → ℕ → Option (Reference T) → Io (Run S) VerifyError (Unit {0})
  unfolding compare_loop hex text_eq
  check_device skip target_len none r = (
    ok tt,
    send (step 4 skipped) (send (detail (codes "(no built image — nothing to compare against)")) r),
  )
  check_device skip target_len (some ref) r =
      sized_image skip target_len ref.size ref.opened (send (step 4 running) r)

  -- What a verification is asked for.
  pub data Target : Type 0 where
    image : Target
    device : (skip : ℕ → Bool) → Option (Reference T) → Target

  abbrev pub check_target : Target → ℕ → Io (Run S) VerifyError (Unit {0})
  check_target image target_len = check_image target_len
  check_target (device skip ref) target_len = check_device skip target_len ref

  abbrev pub passed : Target → Text
  passed image = codes "PASS — the image carries the expected nixnas layout"
  passed (device _ _) = codes "PASS — the device carries the expected nixnas layout"

  abbrev pub verdict : Target → Io (Run S) VerifyError Text
  verdict target r =
      (if is_empty r.issues then ok (passed target) else err (issues_found r.issues), r)

  -- `run_verify` on an opened target
  unfoldable pub run_verify : Target → S → Result VerifyError Text × Run S
  unfolding check_gpt check_boot check_luks check_image check_device
  run_verify target file =
      bind
        (on_file (codes "sizing the target") (seek (from_end (pos 0)))
          (record { file = file; sent = []; issues = [] }))
        (λ target_len r.
          bind (check_gpt human_size seek read clone open_gpt open_fat r) (λ ranges q.
            bind (check_boot human_size seek read clone open_gpt open_fat ranges.0 q) (λ _ u.
              bind (check_luks human_size seek read clone open_gpt open_fat ranges.1 u)
                (λ _ v. bind (check_target target target_len v) (λ _. verdict target)))))
