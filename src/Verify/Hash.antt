-- ===== src/Verify/Hash.antt =====
-- The hashing passes of a verification (tui/src/verify.rs): `sha256_range`, and the compare of a device
-- with the built image. The hasher of the crate sha2 is a parameter.
pub mod Laws
pub mod Compare
use nixnas.Base.{
  ℕ, zero, suc, ◌+◌, ◌-◌, ◌*◌, ◌/◌, ◌%◌, min, Bool, true, false, leb, ◌==◌, List, [], ◌∷◌, ◌++◌,
  Option, none, some, if◌then◌else◌, length, Result, ok, err, Io, bind, inside, ltb,
}
use nixnas.Base.Text.{Text}
use nixnas.Stream.{Bytes, IoError, unexpected_eof, SeekFrom, from_start, Read}
use nixnas.Flash.Copy.{read_prefix}
use nixnas.Verify.Events.{VerifyEvent, progress}

abbrev pub chunk : ℕ
chunk = 64 * 1024 * 1024

-- `Sha256`: a hasher takes bytes in and gives a digest.
pub record Hasher (H : Type 0) : Type 0 where
  pub new : H
  pub update : Bytes → H → H
  pub finalize : H → Bytes

abbrev pub hex_digit : ℕ → ℕ
hex_digit n = if ltb n 10 then 48 + n else 87 + n

-- `hex`: `{b:02x}` of every byte.
unfoldable pub hex : Bytes → Text
hex [] = []
hex (b ∷ bs) = let rest = hex bs in hex_digit (b / 16) ∷ hex_digit (b % 16) ∷ rest

abbrev filled : {S : Type 0} → ℕ → Bytes → Io S IoError Bytes
filled want bs s = if length bs == want then (ok bs, s) else (err unexpected_eof, s)

-- `read_exact`: a short read is an error.
unfoldable pub read_exact : {S : Type 0} → Read S → ℕ → Io S IoError Bytes
unfolding read_prefix
read_exact read want s = bind (read_prefix read want s) (filled want)

-- The reader, and the events sent, the latest first.
pub record Pass (S : Type 0) : Type 0 where
  pub file : S
  pub sent : List VerifyEvent

abbrev pub in_file : {S A : Type 0} → Io S IoError A → Io (Pass S) IoError A
in_file m p = inside (λ e. e) (λ f. record p { file = f }) (m p.file)

module _ {S H : Type 0} (hasher : Hasher H) (seek : SeekFrom → Io S IoError ℕ) (read : Read S) where
  -- The loop of `sha256_range`, with `done` bytes hashed; the flag is polled by that number. With fuel of
  -- at least `len - done` it ends by its own test.
  unfoldable pub hash_loop : (ℕ → Bool) → ℕ → ℕ → ℕ → H → Io (Pass S) IoError (Option H)
  unfolding read_exact
  hash_loop skip zero done len h p = (ok (some h), p)
  hash_loop skip (suc fuel) done len h p =
      let want = min chunk (len - done) in
      let more = bind (in_file (read_exact read want) p) (λ bs q.
        hash_loop skip fuel (done + want) len (hasher.update bs h)
          (record q { sent = progress (done + want) len ∷ q.sent })) in
      if leb len done then (ok (some h), p) else if skip done then (ok none, p) else more

  abbrev pub rendered : Option H → Io (Pass S) IoError (Option Text)
  rendered none p = (ok none, p)
  rendered (some h) p = (ok (some (hex (hasher.finalize h))), p)

  -- `sha256_range`
  unfoldable pub sha256_range : ℕ → (ℕ → Bool) → Io (Pass S) IoError (Option Text)
  unfolding hash_loop hex
  sha256_range len skip p =
      bind (in_file (seek (from_start 0)) p)
        (λ _ q. bind (hash_loop skip len 0 len hasher.new q) rendered)

  module _ {T : Type 0} (read_image : Read T) where
    -- The device with the events, the image beside it.
    abbrev pub in_dev : {A : Type 0} → Io S IoError A → Io (Pass S × T) IoError A
    in_dev m (p, t) = inside (λ e. e) (λ f. (record p { file = f }, t)) (m p.file)

    abbrev pub in_image : {A : Type 0} → Io T IoError A → Io (Pass S × T) IoError A
    in_image m (p, t) = inside (λ e. e) (λ u. (p, u)) (m t)

    abbrev pub report : ℕ → ℕ → Pass S × T → Pass S × T
    report done total (p, t) = (record p { sent = progress done total ∷ p.sent }, t)

    -- The loop of the fidelity compare: both hashers, or `none` when it was skipped.
    unfoldable pub compare_loop :
        (ℕ → Bool) → ℕ → ℕ → ℕ → H → H → Io (Pass S × T) IoError (Option (H × H))
    unfolding read_exact
    compare_loop skip zero done common hd hi s = (ok (some (hd, hi)), s)
    compare_loop skip (suc fuel) done common hd hi s =
        let want = min chunk (common - done) in
        let more = bind (in_dev (read_exact read want) s) (λ bd u.
          bind (in_image (read_exact read_image want) u) (λ bi v.
            compare_loop skip fuel (done + want) common (hasher.update bd hd) (hasher.update bi hi)
              (report (done + want) common v))) in
        if leb common done
        then (ok (some (hd, hi)), s)
        else if skip done
        then (ok none, s)
        else more
