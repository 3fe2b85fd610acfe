-- ===== src/Flash/Grow/Laws.antt =====
-- The mapping that the workbench grow opens (tui/src/flash.rs, `grow_f2fs_in_luks`).
use nixnas.Base.{ℕ, ◌≡◌, refl, ap, ◌∙◌, true, [], ◌∷◌, Result, ok, err, Bool-cases, inl, inr, arith}
use nixnas.Base.Text.{Text, codes}
use nixnas.Stream.{IoError}
use nixnas.Sudo.Command.{Secret, Elevation, Command, Output}
use nixnas.Flash.Grow.{
  ran, looked, History, Host, partition_path, capture, wait_for_node, wait_for_size,
  resize_and_close, verdict, after_open, open_store, open_args, grow_f2fs_in_luks,
}
use nixnas.Sudo.Command.Laws.{IsChild, captured-IsChild, with_input-IsChild}
use nixnas.Flash.Grow.Node.{IsNode, partition_path-IsNode}
use nixnas.Flash.Grow.Open.{succeeded}

module _ (host : Host) where
  module _ (elev : Elevation) where
    -- The four children that a successful grow ends with, each of which has succeeded but the last.
    pub record IsGrown (part : Text) (secret : Secret) (h' : History) : Type 0 where
      pub before : History
      pub opening : Command
      pub resizing : Command
      pub closing : Command
      pub syncing : Command
      pub open_child :
          IsChild elev
            (codes "cryptsetup")
            (codes "open" ∷ codes "--key-file=-" ∷ part ∷ codes "nixnas-flash-grow" ∷ [])
            opening
      pub passphrase : opening.input ≡ secret.bytes
      pub opened : succeeded (host.run before opening) ≡ true
      pub resize_child :
          IsChild elev (codes "resize.f2fs") (codes "/dev/mapper/nixnas-flash-grow" ∷ []) resizing
      pub close_child :
          IsChild elev (codes "cryptsetup") (codes "close" ∷ codes "nixnas-flash-grow" ∷ []) closing
      pub sync_child : IsChild elev (codes "sync") [] syncing
      pub with_open : History
      pub after_opening :
          with_open
          ≡ ran
              (codes "cryptsetup")
              (codes "open" ∷ codes "--key-file=-" ∷ part ∷ codes "nixnas-flash-grow" ∷ [])
              opening
            ∷ before
      pub resized : succeeded (host.run with_open resizing) ≡ true
      pub with_room : History
      pub after_resizing :
          with_room
          ≡ ran (codes "resize.f2fs") (codes "/dev/mapper/nixnas-flash-grow" ∷ []) resizing
            ∷ with_open
      pub closed : succeeded (host.run with_room closing) ≡ true
      pub in_order :
          h'
          ≡ ran (codes "sync") [] syncing
            ∷ ran (codes "cryptsetup") (codes "close" ∷ codes "nixnas-flash-grow" ∷ []) closing
            ∷ with_room

    verdict-ok :
        (r c : Result IoError Output)
        → verdict host elev r c ≡ ok tt
        → (succeeded r ≡ true) × (succeeded c ≡ true)
    verdict-ok (err e) c h = cc h
    verdict-ok (ok out) (err e) h = elim (Bool-cases out.success) [
      | inl t ↦ absurd (cc (rw t at h))
      | inr t ↦ absurd (cc (rw t at h))
    ]
    verdict-ok (ok out) (ok out') h = ground arith

    after_open-IsGrown :
        (part : Text) (secret : Secret) (h : History) (r : Result IoError Output)
        → (open_store host elev part secret h).0 ≡ r
        → (after_open host elev (r, (open_store host elev part secret h).1)).0 ≡ ok tt
        → IsGrown part secret (after_open host elev (r, (open_store host elev part secret h).1)).1
    unfolding resize_and_close
    after_open-IsGrown part secret h (err e) answer h' = cc h'
    after_open-IsGrown part secret h (ok out) answer e = elim (Bool-cases out.success) [
      | inl t ↦
          let (r, c) = verdict-ok _ _ (rw t at e) in
          rw t record {
            before = h;
            opening = _;
            resizing = _;
            closing = _;
            syncing = _;
            open_child =
                (with_input-IsChild elev (codes "cryptsetup") (open_args host elev part)
                  secret.bytes).0;
            passphrase =
                (with_input-IsChild elev (codes "cryptsetup") (open_args host elev part)
                  secret.bytes).1;
            opened = ap succeeded answer ∙ t;
            resize_child =
                captured-IsChild elev (codes "resize.f2fs")
                  (codes "/dev/mapper/nixnas-flash-grow" ∷ []);
            close_child =
                captured-IsChild elev (codes "cryptsetup")
                  (codes "close" ∷ codes "nixnas-flash-grow" ∷ []);
            sync_child = captured-IsChild elev (codes "sync") [];
            with_open = _;
            after_opening = refl;
            resized = r;
            with_room = _;
            after_resizing = refl;
            closed = c;
            in_order = refl;
          }
      | inr t ↦ absurd (cc (rw t at e))
    ]

    -- The same for the node that the code computes.
    node-IsGrown :
        (dev : Text) (part_num : ℕ) (secret : Secret) (h : History)
        → (grow_f2fs_in_luks host elev dev part_num secret h).0 ≡ ok tt
        → IsGrown
            (partition_path dev part_num)
            secret
            (grow_f2fs_in_luks host elev dev part_num secret h).1
    unfolding grow_f2fs_in_luks
    node-IsGrown dev part_num secret h e =
        let part = partition_path dev part_num in
        let h1 = (capture host elev (codes "blockdev") (codes "--rereadpt" ∷ dev ∷ []) h).1 in
        let h2 = wait_for_node host elev 50 part h1 in
        let h3 = wait_for_size host elev 50 part 0 (looked part ∷ h2) in
        elim (Bool-cases (host.exists h2 part)) [
          | inl t ↦
              rw (t, grow_f2fs_in_luks)
                (after_open-IsGrown part secret h3 _ refl (rw (t, grow_f2fs_in_luks) at e))
          | inr t ↦ absurd (cc (rw (t, grow_f2fs_in_luks) at e))
        ]

    -- A grow that reports success has ended with `cryptsetup open` of the partition's node with the
    -- passphrase on its stdin, `resize.f2fs` of the mapping and `cryptsetup close` of it, in this
    -- order, with success each time, and a `sync`; the node is the device's name and the number,
    -- with a `p` between them exactly if the name ends in a digit.
    pub grow_f2fs_in_luks-IsGrown :
        (dev : Text) (part_num : ℕ) (secret : Secret) (h : History)
        → (grow_f2fs_in_luks host elev dev part_num secret h).0 ≡ ok tt
        → (part : Text) × IsNode dev part_num part
          × IsGrown part secret (grow_f2fs_in_luks host elev dev part_num secret h).1
    grow_f2fs_in_luks-IsGrown dev part_num secret h e = (
      partition_path dev part_num,
      partition_path-IsNode dev part_num,
      node-IsGrown dev part_num secret h e,
    )
