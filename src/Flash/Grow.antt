-- ===== src/Flash/Grow.antt =====
-- The workbench grow of the store inside its LUKS partition (tui/src/flash.rs, `partition_path` and
-- `grow_f2fs_in_luks`), as a sequence of effects on a host.
pub mod Node
pub mod Open
pub mod Laws
use nixnas.Base.{
  ℕ, zero, suc, ◌^◌, Bool, true, false, ◌&&◌, ◌==◌, ltb, List, [], ◌∷◌, ◌++◌, Option, none, some,
  if◌then◌else◌, Result, ok, err,
}
use nixnas.Base.Utf8.{from_utf8_lossy}
use nixnas.Base.Text.{Text, codes, text_eq, trim, decimal, is_digit, parse_below}
use nixnas.Stream.{IoError}
use nixnas.Sudo.Command.{Secret, Elevation, Command, Output, captured, with_input}

abbrev pub last_digit : Text → Bool
last_digit [] = false
last_digit (c ∷ []) = is_digit c
last_digit (_ ∷ c ∷ s) = last_digit (c ∷ s)

-- `partition_path`
unfoldable pub partition_path : Text → ℕ → Text
unfolding decimal
partition_path dev n = dev ++ ((if last_digit dev then codes "p" else []) ++ decimal n)

-- `GROW_MAPPER`
abbrev pub grow_mapper : Text
grow_mapper = codes "nixnas-flash-grow"

-- What the program does to the host: a child with its argv before elevation, a look whether a path is
-- there, a sleep in milliseconds.
pub data Effect : Type 0 where
  ran : (program : Text) (args : List Text) → Command → Effect
  looked : Text → Effect
  slept : ℕ → Effect

-- The effects so far, the latest first.
abbrev pub History : Type 0
History = List Effect

-- The host answers by what was done before.
pub record Host : Type 0 where
  pub run : History → Command → Result IoError Output
  pub exists : History → Text → Bool

pub data GrowError : Type 0 where
  no_node : Text → GrowError
  no_cryptsetup no_resize no_close : IoError → GrowError
  not_opened not_resized not_closed : Text → GrowError

module _ (host : Host) (elev : Elevation) where
  -- `run_captured`
  abbrev pub capture : Text → List Text → History → Result IoError Output × History
  capture program args h =
      let c = captured elev program args in (host.run h c, ran program args c ∷ h)

  -- `run_with_input`
  abbrev pub feed : Text → List Text → List ℕ → History → Result IoError Output × History
  feed program args input h =
      let c = with_input elev program args input in (host.run h c, ran program args c ∷ h)

  -- The loop that waits for the partition's node.
  unfoldable pub wait_for_node : ℕ → Text → History → History
  wait_for_node zero part h = h
  wait_for_node (suc n) part h =
      let again = wait_for_node n part (slept 100 ∷ looked part ∷ h) in
      if host.exists h part then looked part ∷ h else again

  abbrev or_zero : Option ℕ → ℕ
  or_zero none = 0
  or_zero (some n) = n

  abbrev size_of : Result IoError Output → ℕ
  size_of (err _) = 0
  size_of (ok out) =
      if out.success then or_zero (parse_below (2 ^ 64) (trim (from_utf8_lossy out.stdout))) else 0

  -- The loop that waits until two samples of the partition's size agree.
  unfoldable pub wait_for_size : ℕ → Text → ℕ → History → History
  wait_for_size zero part last h = h
  wait_for_size (suc n) part last h =
      let (out, h') = capture (codes "blockdev") (codes "--getsize64" ∷ part ∷ []) h in
      let size = size_of out in
      let again = wait_for_size n part size (slept 200 ∷ h') in
      if ltb 0 size && size == last then h' else again

  -- The outcome of the close.
  abbrev pub closing : Result IoError Output → Result GrowError (Unit {0})
  closing (err e) = err (no_close e)
  closing (ok out) =
      if out.success then ok tt else err (not_closed (trim (from_utf8_lossy out.stderr)))

  -- The outcome, from what resize.f2fs and the close have said.
  abbrev pub verdict : Result IoError Output → Result IoError Output → Result GrowError (Unit {0})
  verdict (err e) _ = err (no_resize e)
  verdict (ok out) close =
      if out.success then closing close else err (not_resized (trim (from_utf8_lossy out.stderr)))

  abbrev pub resize : History → Result IoError Output × History
  resize h = capture (codes "resize.f2fs") ((codes "/dev/mapper/" ++ grow_mapper) ∷ []) h

  abbrev pub close : History → Result IoError Output × History
  close h = capture (codes "cryptsetup") (codes "close" ∷ grow_mapper ∷ []) h

  abbrev pub sync : History → Result IoError Output × History
  sync h = capture (codes "sync") [] h

  -- With the mapping open: resize, always close, sync.
  unfoldable pub resize_and_close : History → Result GrowError (Unit {0}) × History
  resize_and_close h =
      let resized = resize h in
      let closed = close resized.1 in (verdict resized.0 closed.0, (sync closed.1).1)

  -- What follows the open.
  abbrev pub after_open : Result IoError Output × History → Result GrowError (Unit {0}) × History
  after_open (err e, h) = (err (no_cryptsetup e), h)
  after_open (ok out, h) =
      let done = resize_and_close h in
      if out.success then done else (err (not_opened (trim (from_utf8_lossy out.stderr))), h)

  abbrev pub open_args : Text → List Text
  open_args part = codes "open" ∷ codes "--key-file=-" ∷ part ∷ grow_mapper ∷ []

  abbrev pub open_store : Text → Secret → History → Result IoError Output × History
  open_store part secret h = feed (codes "cryptsetup") (open_args part) secret.bytes h

  unfoldable pub grow_f2fs_in_luks :
      Text → ℕ → Secret → History → Result GrowError (Unit {0}) × History
  grow_f2fs_in_luks dev part_num secret h =
      let part = partition_path dev part_num in
      let h1 = (capture (codes "blockdev") (codes "--rereadpt" ∷ dev ∷ []) h).1 in
      let h2 = wait_for_node 50 part h1 in
      let h3 = wait_for_size 50 part 0 (looked part ∷ h2) in
      let opened = after_open (open_store part secret h3) in
      if host.exists h2 part then opened else (err (no_node part), looked part ∷ h2)
