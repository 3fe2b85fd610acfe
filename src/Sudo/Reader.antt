-- ===== src/Sudo/Reader.antt =====
-- `SudoReader` (tui/src/sudo.rs): a seekable reader on `sudo dd`, with a cache of one block for small
-- reads. The host is a function `run` of the commands already run and the next one.
pub mod Laws
pub mod Stream
pub mod Seek
use nixnas.Base.{
  ℕ, ◌+◌, ◌-◌, ◌*◌, ◌%◌, ◌≤◌, ◌<◌, min, ◌≡◌, refl, Bool, true, false, ◌&&◌, List, [], ◌∷◌, ◌++◌,
  Option, none, some, ltb, leb, ◌==◌, if◌then◌else◌, length, take, drop, Result, ok, err, Io, bind,
}
use nixnas.Base.Utf8.{from_utf8_lossy}
use nixnas.Base.Text.{Text, codes, decimal, trim}
use nixnas.Stream.{Bytes, IoError, invalid_input, other, SeekFrom, seek_target, as_u64}
use nixnas.Sudo.Command.{Command, Output, Secret, line}

abbrev pub block : ℕ
block = 1024 * 1024

pub record SudoReader : Type 0 where
  pub dev : Text
  pub len : ℕ
  pub here : ℕ  -- the source's `pos`
  pub secret : Secret
  pub cache : Bytes
  pub cache_start : ℕ

-- The reader, and the commands that the host has run so far.
pub record State : Type 0 where
  pub reader : SudoReader
  pub ran : List Command

unfoldable pub new : Text → ℕ → Secret → SudoReader
new dev len secret = record {
  dev = dev;
  len = len;
  here = 0;
  secret = secret;
  cache = [];
  cache_start = 0;
}

unfoldable pub fresh_clone : SudoReader → SudoReader
fresh_clone r = record r { cache = []; cache_start = 0 }

-- The child that `dd_range` spawns.
unfoldable pub dd_command : SudoReader → ℕ → ℕ → Command
dd_command r off n = record {
  program = codes "sudo";
  args =
      codes "-S"
      ∷ codes "-p"
      ∷ []
      ∷ codes "dd"
      ∷ (codes "if=" ++ r.dev)
      ∷ codes "iflag=skip_bytes,count_bytes"
      ∷ codes "bs=1048576"
      ∷ (codes "skip=" ++ decimal off)
      ∷ (codes "count=" ++ decimal n)
      ∷ codes "status=none"
      ∷ [];
  input = line r.secret;
}

abbrev pub dd_output : Result IoError Output → Result IoError Bytes
dd_output (err e) = err e
dd_output (ok out) =
    if out.success
    then ok out.stdout
    else err (other (codes "sudo dd read failed: " ++ trim (from_utf8_lossy out.stderr)))

module _ (run : List Command → Command → Result IoError Output) where
  unfoldable pub dd_range : ℕ → ℕ → Io State IoError Bytes
  dd_range off n s =
      let c = dd_command s.reader off n in (dd_output (run s.ran c), record s { ran = c ∷ s.ran })

  -- Takes at most `want` bytes and moves on by as many.
  abbrev pub give : ℕ → Bytes → Io State IoError Bytes
  give want bytes s =
      let n = min (length bytes) want in
      (ok (take n bytes), record s { reader = record (s.reader) { here = s.reader.here + n } })

  -- A read of a block or more fetches its range.
  pub read_large : ℕ → Io State IoError Bytes
  unfolding dd_range
  read_large want s = bind (dd_range s.reader.here want s) (give want)

  abbrev pub in_cache : SudoReader → Bool
  in_cache r = leb r.cache_start r.here && ltb r.here (r.cache_start + length r.cache)

  -- The part of the cache at the position.
  pub serve : ℕ → Io State IoError Bytes
  serve want s =
      let r = s.reader in
      let offset = r.here - r.cache_start in
      if leb (length r.cache) offset then (ok [], s) else give want (drop offset r.cache) s

  abbrev pub keep_block : ℕ → Bytes → Io State IoError (Unit {0})
  keep_block start bytes s =
      (ok tt, record s { reader = record (s.reader) { cache = bytes; cache_start = start } })

  -- A miss fetches the aligned block around the position.
  pub refill : Io State IoError (Unit {0})
  unfolding dd_range
  refill s =
      let r = s.reader in
      let start = r.here - r.here % block in
      bind (dd_range start (min block (r.len - start)) s) (keep_block start)

  pub read_small : ℕ → Io State IoError Bytes
  unfolding refill serve
  read_small want s = if in_cache s.reader then serve want s else bind (refill s) (λ _. serve want)

  unfoldable pub read : ℕ → Io State IoError Bytes
  unfolding read_large read_small
  read size s =
      let r = s.reader in
      let want = min size (r.len - r.here) in
      if leb r.len r.here
      then (ok [], s)
      else if want == 0
      then (ok [], s)
      else if leb block want
      then read_large want s
      else read_small want s

abbrev pub go_to : State → Option ℕ → Result IoError ℕ × State
go_to s none = (err invalid_input, s)
go_to s (some target) =
    (ok (as_u64 target), record s { reader = record (s.reader) { here = as_u64 target } })

unfoldable pub seek : SeekFrom → Io State IoError ℕ
seek p s = go_to s (seek_target s.reader.len s.reader.here p)
