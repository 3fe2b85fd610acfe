-- ===== src/Flash/Run/Laws.antt =====
-- The order of the steps of a flash, on every path (tui/src/flash.rs).
use nixnas.Base.{
  Bool, true, false, not, ◌&&◌, ◌||◌, [], ◌∷◌, Option, Result, ok, err, ◌≡◌, refl, sym, ap, arith,
}
use nixnas.Base.Text.{Text}
use nixnas.Sudo.Command.{Secret}
use nixnas.Flash.Run.{
  FlashOp, sync_backup, open_writer, compare, finish_writer, Past, Env, FlashError, GrowNote,
  grow_to_fill, verify_header, overwrite, run_flash, answered, compared, open_reader, create_backup,
  back_up, stat_image, open_image, write_image, announce_write, announce_verify,
}

abbrev succeeded : Result Text (Unit {0}) → Bool
succeeded (ok _) = true
succeeded (err _) = false

abbrev is_true : Result Text Bool → Bool
is_true (ok same) = same
is_true (err _) = false

abbrev pub is_ok : Result FlashError GrowNote → Bool
is_ok (ok _) = true
is_ok (err _) = false

module _ (env : Env) where
  -- The backup was synced with success.
  unfoldable pub synced : Past → Bool
  synced [] = false
  synced (sync_backup ∷ h) = let before = synced h in succeeded (env.does h sync_backup) || before
  synced (_ ∷ h) = synced h

  -- The device was opened for writing only after what `cleared` asks for.
  unfoldable pub guarded : (Past → Bool) → Past → Bool
  guarded cleared [] = true
  guarded cleared (open_writer ∷ h) = let before = guarded cleared h in cleared h && before
  guarded cleared (_ ∷ h) = guarded cleared h

  -- The header check was reached with the image on the device.
  unfoldable pub header_checked : Past → Bool
  header_checked [] = false
  header_checked (compare ∷ h) =
      let before = header_checked h in is_true (env.same_prefix h) || before
  header_checked (_ ∷ h) = header_checked h

  abbrev Fine : (Past → Bool) → Result FlashError GrowNote × Past → Type 0
  Fine cleared (r, h) = (guarded cleared h ≡ true) × (is_ok r ≡ header_checked h)

  grow_to_fill-Fine :
      (cleared : Past → Bool) (grow : Bool) (pass : Option Secret) (h : Past)
      → guarded cleared h ≡ true
      → header_checked h ≡ true
      → Fine cleared (grow_to_fill env grow pass h)
  unfolding grow_to_fill guarded header_checked
  grow_to_fill-Fine cleared grow pass h g c = ground arith

  verify_header-Fine :
      (cleared : Past → Bool) (grow : Bool) (pass : Option Secret) (h : Past)
      → guarded cleared h ≡ true
      → header_checked h ≡ false
      → Fine cleared (verify_header env grow pass h)
  unfolding verify_header guarded header_checked
  verify_header-Fine cleared grow pass h g c =
      elim (env.same_prefix (announce_verify ∷ h))
          as (λ r.
            env.same_prefix (announce_verify ∷ h) ≡ r
            → Fine cleared (compared env grow pass r (compare ∷ announce_verify ∷ h))) [
              | ok true ↦ λ e.
                  grow_to_fill-Fine cleared grow pass (compare ∷ announce_verify ∷ h) g (rw e refl)
              | ok false ↦ λ e. ground arith
              | err x ↦ λ e. ground arith
            ]
        refl

  -- A step, and what follows it when it succeeds.
  answered-Fine :
      (cleared : Past → Bool) (op : FlashOp) (h : Past) (r : Result Text (Unit {0}))
      (rest : Past → Result FlashError GrowNote × Past)
      → env.does h op ≡ r
      → guarded cleared (op ∷ h) ≡ true
      → header_checked (op ∷ h) ≡ false
      → (succeeded (env.does h op) ≡ true → Fine cleared (rest (op ∷ h)))
      → Fine cleared (answered env op h r rest)
  answered-Fine cleared op h (ok _) rest e g c next = next (ap succeeded e)
  answered-Fine cleared op h (err x) rest e g c next = (g, sym c)

  overwrite-Fine :
      (cleared : Past → Bool) (grow : Bool) (pass : Option Secret) (h : Past)
      → guarded cleared h ≡ true
      → header_checked h ≡ false
      → cleared (open_image ∷ stat_image ∷ announce_write ∷ h) ≡ true
      → Fine cleared (overwrite env grow pass h)
  unfolding overwrite guarded header_checked
  overwrite-Fine cleared grow pass h g c clear =
      let opened : guarded cleared (open_writer ∷ open_image ∷ stat_image ∷ announce_write ∷ h)
          ≡ true =
        rw (clear, g) refl in
      answered-Fine cleared stat_image _ _ _ refl g c λ _.
        answered-Fine cleared open_image _ _ _ refl g c λ _.
          answered-Fine cleared open_writer _ _ _ refl opened c λ _.
            answered-Fine cleared write_image _ _ _ refl opened c λ _.
              answered-Fine cleared finish_writer _ _ _ refl opened c
                λ _. verify_header-Fine cleared grow pass _ opened c

  -- A flash, from its first step: the device is opened for writing only after the backup, if one was
  -- asked for, has been synced with success; and the flash succeeds exactly if the header check was
  -- reached and found the image on the device, whatever becomes of the grow.
  pub run_flash-order :
      (backup grow : Bool) (pass : Option Secret)
      → let (r, h) = run_flash env backup grow pass [] in
        (guarded (λ before. not backup || synced before) h ≡ true) × (is_ok r ≡ header_checked h)
  unfolding run_flash guarded header_checked synced
  run_flash-order false grow pass =
      overwrite-Fine (λ before. not false || synced before) grow pass [] refl refl refl
  run_flash-order true grow pass =
      let cleared = λ (before : Past). synced before in
      answered-Fine cleared open_reader _ _ _ refl refl refl λ _.
        answered-Fine cleared create_backup _ _ _ refl refl refl λ _.
          answered-Fine cleared back_up _ _ _ refl refl refl λ _.
            answered-Fine cleared sync_backup _ _ _ refl refl refl
              λ e. overwrite-Fine cleared grow pass _ refl refl (rw e refl)
