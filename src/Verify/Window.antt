-- ===== src/Verify/Window.antt =====
-- `SliceCursor` (tui/src/verify.rs): a read-only window on a byte range of a file, over which the FAT
-- file system of the ESP is mounted. The file is any state with a `seek` and a `read`.
pub mod Laws
use nixnas.Base.{
  ℕ, ◌+◌, ◌-◌, min, Bool, Option, none, some, List, [], length, ◌==◌, if◌then◌else◌, Result, ok,
  err, Io, bind, ◌>>=◌,
}
use nixnas.Stream.{
  Bytes, IoError, invalid_input, unsupported, SeekFrom, from_start, seek_target, as_u64, Read,
}

pub record SliceCursor (F : Type 0) : Type 0 where
  pub file : F
  pub start : ℕ
  pub len : ℕ
  pub here : ℕ  -- the source's `pos`

unfoldable pub new : {F : Type 0} → F → ℕ → ℕ → SliceCursor F
new file start len = record { file = file; start = start; len = len; here = 0 }

-- A call on the file inside.
abbrev pub on_file : {F A : Type 0} → Io F IoError A → Io (SliceCursor F) IoError A
on_file m c = let (r, f) = m c.file in (r, record c { file = f })

module _ {F : Type 0} where
  abbrev pub advance : Bytes → Io (SliceCursor F) IoError Bytes
  advance bs c = (ok bs, record c { here = c.here + length bs })

  module _ (seek_file : SeekFrom → Io F IoError ℕ) (read_file : Read F) where
    -- `Read::read`
    unfoldable pub read : ℕ → Io (SliceCursor F) IoError Bytes
    read size c =
        let remaining = c.len - c.here in
        if remaining == 0
        then (ok [], c)
        else bind (on_file (seek_file (from_start (c.start + c.here))) c)
            (λ _ d. bind (on_file (read_file (min size remaining)) d) advance)

  abbrev pub go_to : SliceCursor F → Option ℕ → Result IoError ℕ × SliceCursor F
  go_to c none = (err invalid_input, c)
  go_to c (some target) = (ok (as_u64 target), record c { here = as_u64 target })

  -- `Seek::seek`
  unfoldable pub seek : SeekFrom → Io (SliceCursor F) IoError ℕ
  seek p c = go_to c (seek_target c.len c.here p)

  -- `Write::write` fails closed, and `Write::flush` does nothing.
  unfoldable pub write : Bytes → Io (SliceCursor F) IoError ℕ
  write buf c = (err unsupported, c)

  unfoldable pub flush : Io (SliceCursor F) IoError (Unit {0})
  flush c = (ok tt, c)
