-- ===== src/Tests/Streams.antt =====
-- The byte loops of tui/src/flash.rs and the window of tui/src/verify.rs over small files.
pub mod ListFile
use nixnas.Base.{
  ℕ, ◌<◌, ◌≤◌, ◌≢◌, ◌↔◌, ◌≡◌, refl, List, [], ◌∷◌, ◌++◌, length, take, true, Result, ok, err, arith,
}
use nixnas.Stream.{Bytes, IsStream}
use nixnas.Flash.Copy.{Copying, copy_with_progress, out_of_fuel, same_prefix}
use nixnas.Flash.Copy.Laws.{same_prefix_iff}
use nixnas.Flash.Copy.Transfer.{last_done, copy_with_progress-Copied, copy_with_progress-total}
use nixnas.Verify.Window.{SliceCursor, read}
use nixnas.Verify.Window.Laws as Window
use nixnas.Tests.Streams.ListFile.{
  read_at, rest_at, Always, read_at-IsStream, read_at-Succeeds, seek_at, seek_at-IsSeekable,
  append_to, append_to-IsSink, append_to-ok,
}

abbrev image : Bytes
image = 7 ∷ 8 ∷ 9 ∷ []

abbrev stick : Bytes
stick = 7 ∷ 8 ∷ 9 ∷ 10 ∷ []

abbrev start : Copying ℕ Bytes
start = record { src = 0; dst = 5 ∷ []; sent = [] }

copy_with_progress-Copied_example :
    let (r, d) = copy_with_progress (read_at image) append_to 4 3 start in
    (r ≢ err out_of_fuel)
    × ((u : Unit {0}) → r ≡ ok u → (d.dst ≡ 5 ∷ image) × (last_done d.sent ≡ 3))
copy_with_progress-Copied_example =
    copy_with_progress-Copied (read_at image) Always (rest_at image) (read_at-IsStream image)
      append_to (λ d. d) append_to-IsSink 4 3 start tt (omega arith) refl

copy_with_progress-total_example :
    (copy_with_progress (read_at image) append_to 4 3 start).0 ≡ ok tt
copy_with_progress-total_example =
    copy_with_progress-total (read_at image) Always (rest_at image) (read_at-IsStream image)
      append_to (λ d. d) append_to-IsSink (read_at-Succeeds image) append_to-ok 4 3 start tt
      (omega arith)

same_prefix_iff_example : (true ≡ true) ↔ ((image ≢ []) × (take 3 stick ≡ image))
unfolding same_prefix nixnas.Flash.Copy.read_prefix nixnas.Flash.Copy.prefix_matches
    nixnas.Base.Text.text_eq
same_prefix_iff_example =
    same_prefix_iff (read_at image) Always (rest_at image) (read_at-IsStream image) (read_at stick)
      Always (rest_at stick) (read_at-IsStream stick) 8 0 0 true tt tt refl

window_read-IsStream_example :
    IsStream
      (read (seek_at stick) (read_at stick))
      (Window.Good
        (seek_at stick)
        (read_at stick)
        Always
        (rest_at stick)
        stick
        (read_at-IsStream stick)
        (seek_at-IsSeekable stick))
      (Window.rest
        (seek_at stick)
        (read_at stick)
        Always
        (rest_at stick)
        stick
        (read_at-IsStream stick)
        (seek_at-IsSeekable stick))
window_read-IsStream_example =
    Window.window_read-IsStream (seek_at stick) (read_at stick) Always (rest_at stick) stick
      (read_at-IsStream stick) (seek_at-IsSeekable stick)
