-- ===== src/Flash/Copy.antt =====
-- The byte loops of tui/src/flash.rs: `copy_with_progress`, `read_prefix` and `same_prefix`.
pub mod Laws
pub mod Transfer
use nixnas.Base.{
  ℕ, zero, suc, ◌+◌, ◌-◌, ◌*◌, min, Bool, ◌&&◌, not, List, [], ◌∷◌, ◌++◌, length, take, is_empty,
  ◌==◌, if◌then◌else◌, Result, ok, err, Io, bind, inside,
}
use nixnas.Base.Text.{text_eq}
use nixnas.Stream.{Bytes, IoError, Read}

abbrev pub chunk : ℕ
chunk = 4 * 1024 * 1024

-- Which side of a copy failed. `out_of_fuel` is no outcome of the source.
pub data CopyError : Type 0 where
  reading_source writing_destination : IoError → CopyError
  out_of_fuel : CopyError

-- `write_all` of a sink.
abbrev pub Write : Type 0 → Type 0
Write D = Bytes → Io D IoError (Unit {0})

-- `FlashEvent::Progress`
pub record Progress : Type 0 where
  pub done : ℕ
  pub total : ℕ

-- The two ends, and the events sent, the last one first.
pub record Copying (S D : Type 0) : Type 0 where
  pub src : S
  pub dst : D
  pub sent : List Progress

abbrev pub send : {S D : Type 0} → Progress → Copying S D → Copying S D
send p c = record c { sent = p ∷ c.sent }

abbrev pub set_src : {S D : Type 0} → Copying S D → S → Copying S D
set_src c s = record c { src = s }

abbrev pub set_dst : {S D : Type 0} → Copying S D → D → Copying S D
set_dst c d = record c { dst = d }

-- The loop of `copy_with_progress`, with the bytes copied so far.
unfoldable pub copy_loop :
    {S D : Type 0} → Read S → Write D → ℕ → ℕ → ℕ → Io (Copying S D) CopyError (Unit {0})
copy_loop read write_all zero total done c = (err out_of_fuel, c)
copy_loop read write_all (suc fuel) total done c =
    bind (inside reading_source (set_src c) (read chunk c.src)) (λ bs d.
      let done' = done + length bs in
      let more = bind (inside writing_destination (set_dst d) (write_all bs d.dst)) (λ _ e.
        copy_loop read write_all fuel total done'
          (send (record { done = done'; total = total }) e)) in
      if is_empty bs then (ok tt, d) else more)

unfoldable pub copy_with_progress :
    {S D : Type 0} → Read S → Write D → ℕ → ℕ → Io (Copying S D) CopyError (Unit {0})
unfolding copy_loop
copy_with_progress read write_all fuel total c = copy_loop read write_all fuel total 0 c

module _ {S : Type 0} (read : Read S) where
  -- The loop of `read_prefix`: `want` bytes are missing behind `got`. It ends by its own test when
  -- the fuel is at least `want`.
  unfoldable pub prefix_loop : ℕ → ℕ → Bytes → Io S IoError Bytes
  prefix_loop zero want got s = (ok got, s)
  prefix_loop (suc fuel) want got s =
      let more = bind (read want s) (λ bs t.
        let again = prefix_loop fuel (want - length bs) (got ++ bs) t in
        if is_empty bs then (ok got, t) else again) in
      if want == 0 then (ok got, s) else more

  unfoldable pub read_prefix : ℕ → Io S IoError Bytes
  unfolding prefix_loop
  read_prefix len s = prefix_loop len len [] s

-- The comparison at the end of `same_prefix`.
unfoldable pub prefix_matches : Bytes → Bytes → Bool
prefix_matches pa pb =
    not (is_empty pa)
    && length pa == min (length pb) (length pa)
    && text_eq (take (length pa) pb) pa

-- The second half of `same_prefix`, with the image's prefix at hand.
abbrev pub match_device : {S T : Type 0} → Read T → ℕ → Bytes → Io (S × T) IoError Bool
match_device read_dev len pa (s, t) =
    bind (inside (λ e. e) (λ u. (s, u)) (read_prefix read_dev len t))
      (λ pb w. (ok (prefix_matches pa pb), w))

-- `same_prefix` over the two open readers.
unfoldable pub same_prefix : {S T : Type 0} → Read S → Read T → ℕ → Io (S × T) IoError Bool
same_prefix read_image read_dev len (s, t) =
    bind (inside (λ e. e) (λ u. (u, t)) (read_prefix read_image len s)) (match_device read_dev len)
