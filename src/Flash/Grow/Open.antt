-- ===== src/Flash/Grow/Open.antt =====
-- Which mappings are open along a history (tui/src/flash.rs, `grow_f2fs_in_luks`).
use nixnas.Base.{
  ℕ, zero, suc, ◌≡◌, refl, ◌∙◌, Bool, true, false, ◌&&◌, List, [], ◌∷◌, if◌then◌else◌, Result, ok,
  err, Bool-cases, inl, inr, ltb, ◌==◌,
}
use nixnas.Base.Text.{Text, codes, text_eq}
use nixnas.Stream.{IoError}
use nixnas.Sudo.Command.{Secret, Elevation, Command, Output}
use nixnas.Flash.Grow.{
  ran, looked, slept, History, Host, partition_path, capture, wait_for_node, wait_for_size, size_of,
  resize_and_close, after_open, open_args, grow_f2fs_in_luks,
}

abbrev first_is : Text → List Text → Bool
first_is t [] = false
first_is t (u ∷ _) = text_eq t u

-- The argv of `cryptsetup open` and of `cryptsetup close`.
abbrev pub opens : Text → List Text → Bool
opens program args = text_eq program (codes "cryptsetup") && first_is (codes "open") args

abbrev pub closes : Text → List Text → Bool
closes program args = text_eq program (codes "cryptsetup") && first_is (codes "close") args

abbrev pub succeeded : Result IoError Output → Bool
succeeded (err _) = false
succeeded (ok out) = out.success

module _ (host : Host) where
  -- A mapping was opened with success, and no close was tried since.
  unfoldable pub unclosed : History → Bool
  unclosed [] = false
  unclosed (looked _ ∷ h) = unclosed h
  unclosed (slept _ ∷ h) = unclosed h
  unclosed (ran program args c ∷ h) =
      let before = unclosed h in
      if closes program args
      then false
      else if opens program args && succeeded (host.run h c)
      then true
      else before

  -- A mapping was opened with success, and none was closed with success since.
  unfoldable pub left_open : History → Bool
  left_open [] = false
  left_open (looked _ ∷ h) = left_open h
  left_open (slept _ ∷ h) = left_open h
  left_open (ran program args c ∷ h) =
      let before = left_open h in
      if closes program args && succeeded (host.run h c)
      then false
      else if opens program args && succeeded (host.run h c)
      then true
      else before

  module _ (elev : Elevation) where
    wait_for_node-unclosed :
        (n : ℕ) (part : Text) (h : History)
        → unclosed (wait_for_node host elev n part h) ≡ unclosed h
    unfolding wait_for_node unclosed
    wait_for_node-unclosed zero part h = refl
    wait_for_node-unclosed (suc n) part h = elim (Bool-cases (host.exists h part)) [
      | inl t ↦ rw (t, wait_for_node)
      | inr t ↦ rw (t, wait_for_node) (wait_for_node-unclosed n part (slept 100 ∷ looked part ∷ h))
    ]

    wait_for_size-unclosed :
        (n : ℕ) (part : Text) (last : ℕ) (h : History)
        → unclosed (wait_for_size host elev n part last h) ≡ unclosed h
    unfolding wait_for_size unclosed text_eq
    wait_for_size-unclosed zero part last h = refl
    wait_for_size-unclosed (suc n) part last h =
        let out = capture host elev (codes "blockdev") (codes "--getsize64" ∷ part ∷ []) h in
        let again = wait_for_size-unclosed n part (size_of host elev out.0) (slept 200 ∷ out.1) in
        elim (Bool-cases (ltb 0 (size_of host elev out.0) && size_of host elev out.0 == last)) [
          | inl t ↦ rw (t, wait_for_size)
          | inr t ↦ rw (t, wait_for_size) again
        ]

    resize_and_close-unclosed : (h : History) → unclosed (resize_and_close host elev h).1 ≡ false
    unfolding resize_and_close unclosed text_eq
    resize_and_close-unclosed h = refl

    after_open-unclosed :
        (part : Text) (c : Command) (h : History) (r : Result IoError Output)
        → host.run h c ≡ r
        → unclosed h ≡ false
        → unclosed
            (after_open host elev (r, ran (codes "cryptsetup") (open_args host elev part) c ∷ h)).1
          ≡ false
    unfolding unclosed text_eq
    after_open-unclosed part c h (err e) answer closed = rw answer closed
    after_open-unclosed part c h (ok out) answer closed = elim (Bool-cases out.success) [
      | inl t ↦ rw t (resize_and_close-unclosed _)
      | inr t ↦ rw t (rw answer (rw t closed))
    ]

    -- A close is tried.
    pub tried :
        (dev : Text) (part_num : ℕ) (secret : Secret) (h : History)
        → unclosed h ≡ false
        → unclosed (grow_f2fs_in_luks host elev dev part_num secret h).1 ≡ false
    unfolding grow_f2fs_in_luks unclosed text_eq
    tried dev part_num secret h closed =
        let part = partition_path dev part_num in
        let h1 = (capture host elev (codes "blockdev") (codes "--rereadpt" ∷ dev ∷ []) h).1 in
        let h2 = wait_for_node host elev 50 part h1 in
        let h3 = wait_for_size host elev 50 part 0 (looked part ∷ h2) in
        let node : unclosed h2 ≡ false = wait_for_node-unclosed 50 part h1 ∙ closed in
        let size : unclosed h3 ≡ false =
          wait_for_size-unclosed 50 part 0 (looked part ∷ h2) ∙ node in
        elim (Bool-cases (host.exists h2 part)) [
          | inl t ↦ rw (t, grow_f2fs_in_luks) (after_open-unclosed part _ h3 _ refl size)
          | inr t ↦ rw (t, grow_f2fs_in_luks) node
        ]
