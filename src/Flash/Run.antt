-- ===== src/Flash/Run.antt =====
-- The order of a flash (tui/src/flash.rs, `run_flash`): backup, write, header check, grow. The steps are
-- labels, and an environment answers each by what was done before; the byte loops behind `back_up`,
-- `write_image` and `compare` are in Flash/Copy, the one behind `grow_store` in Flash/Grow.
pub mod Laws
use nixnas.Base.{
  ℕ, Bool, true, false, List, [], ◌∷◌, Option, none, some, if◌then◌else◌, Result, ok, err,
}
use nixnas.Base.Text.{Text}
use nixnas.Sudo.Command.{Secret}

pub data FlashOp : Type 0 where
  announce_backup open_reader create_backup back_up sync_backup : FlashOp
  announce_write stat_image open_image open_writer write_image finish_writer : FlashOp
  announce_verify compare : FlashOp
  announce_grow grow_partition announce_store : FlashOp
  grow_store : ℕ → Secret → FlashOp

-- The steps so far, the latest first.
abbrev pub Past : Type 0
Past = List FlashOp

pub record Env : Type 0 where
  pub does : Past → FlashOp → Result Text (Unit {0})
  pub same_prefix : Past → Result Text Bool
  pub grow_last_partition : Past → Result Text ℕ

pub data FlashError : Type 0 where
  failed : FlashOp → Text → FlashError
  wrong_header : FlashError

-- What the summary says of the grow.
pub data GrowNote : Type 0 where
  no_grow filled store_skipped : GrowNote
  store_failed partition_failed : Text → GrowNote

module _ (env : Env) where
  abbrev pub answered :
      FlashOp
      → Past
      → Result Text (Unit {0})
      → (Past → Result FlashError GrowNote × Past)
      → Result FlashError GrowNote × Past
  answered op h (ok _) rest = rest (op ∷ h)
  answered op h (err e) rest = (err (failed op e), op ∷ h)

  -- One step with `?` behind it, and what follows.
  abbrev pub then_do :
      FlashOp
      → (Past → Result FlashError GrowNote × Past)
      → Past
      → Result FlashError GrowNote × Past
  then_do op rest h = answered op h (env.does h op) rest

  abbrev pub grown_store : Result Text (Unit {0}) → Past → Result FlashError GrowNote × Past
  grown_store (ok _) h = (ok filled, h)
  grown_store (err e) h = (ok (store_failed e), h)

  abbrev pub grown_partition :
      Option Secret → Result Text ℕ → Past → Result FlashError GrowNote × Past
  grown_partition pass (err e) h = (ok (partition_failed e), h)
  grown_partition none (ok n) h = (ok store_skipped, h)
  grown_partition (some secret) (ok n) h =
      let h' = announce_store ∷ h in
      grown_store (env.does h' (grow_store n secret)) (grow_store n secret ∷ h')

  -- The grow after the header check: it warns, and never fails.
  unfoldable pub grow_to_fill : Bool → Option Secret → Past → Result FlashError GrowNote × Past
  grow_to_fill grow pass h =
      let h' = announce_grow ∷ h in
      if grow
      then grown_partition pass (env.grow_last_partition h') (grow_partition ∷ h')
      else (ok no_grow, h)

  abbrev pub compared :
      Bool → Option Secret → Result Text Bool → Past → Result FlashError GrowNote × Past
  compared grow pass (err e) h = (err (failed compare e), h)
  compared grow pass (ok same) h =
      let next = grow_to_fill grow pass h in if same then next else (err wrong_header, h)

  unfoldable pub verify_header : Bool → Option Secret → Past → Result FlashError GrowNote × Past
  verify_header grow pass h =
      let h' = announce_verify ∷ h in compared grow pass (env.same_prefix h') (compare ∷ h')

  unfoldable pub overwrite : Bool → Option Secret → Past → Result FlashError GrowNote × Past
  overwrite grow pass h =
      then_do stat_image
        (then_do open_image (
          then_do open_writer
            (then_do write_image (then_do finish_writer (verify_header grow pass)))))
        (announce_write ∷ h)

  unfoldable pub run_flash : Bool → Bool → Option Secret → Past → Result FlashError GrowNote × Past
  run_flash backup grow pass h =
      let saved =
        then_do open_reader
          (then_do create_backup (then_do back_up (then_do sync_backup (overwrite grow pass))))
          (announce_backup ∷ h) in
      let unsaved = overwrite grow pass h in if backup then saved else unsaved
