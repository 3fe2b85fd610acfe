-- ===== src/Flash/Partition/Laws.antt =====
-- The deletions of the grow of the last partition (tui/src/flash.rs, `grow_last_partition`).
use nixnas.Base.{
  ℕ, ◌≡◌, refl, Bool, true, false, List, [], ◌∷◌, ◌++◌, some, subst, Option-cases, Result, ok, err,
  Io, bind, ◌>>=◌, ◌>>◌, pure, if_elim, inl, inr,
}
use nixnas.Base.Utf8.{from_utf8_lossy}
use nixnas.Sudo.Command.Laws.{IsChild, captured-IsChild}
use nixnas.Flash.Partition.Listing.{IsLast, last_number-IsLast}
use nixnas.Flash.Partition.Report.{Reports, read_info-Reports}
use nixnas.Base.Text.{Text, decimal, codes, starts_with}
use nixnas.Stream.{IoError}
use nixnas.Sudo.Command.{Elevation, Command, Output, captured}
use nixnas.Flash.Grow.{Effect, ran, looked, slept, History, Host}
use nixnas.Flash.Partition.{
  PartInfo, PartError, last_number, read_info, recreate, move_header, info_flag, asked, sgdisk,
  run_sgdisk, last_partition_number, partition_info, grow_last_partition,
}

-- A child of sgdisk with these arguments has ended well, with that output.
pub data Said (host : Host) (elev : Elevation) (args : List Text) (out : Output)
    : History → Type 0 where
  now :
      {h : History} {c : Command}
      → IsChild elev (codes "sgdisk") args c
      → host.run h c ≡ ok out
      → out.success ≡ true
      → Said host elev args out (ran (codes "sgdisk") args c ∷ h)
  before : {e : Effect} {h : History} → Said host elev args out h → Said host elev args out (e ∷ h)

abbrev deletes_first : List Text → Bool
deletes_first [] = false
deletes_first (arg ∷ _) = starts_with (codes "--delete=") arg

-- A child whose first argument deletes a partition.
abbrev deletes : Effect → Bool
deletes (ran program args _) = deletes_first args
deletes (looked _) = false
deletes (slept _) = false

-- The arguments that delete a partition and make it anew: at the sector, to the largest end (0), with the
-- GUIDs of the type and of the partition, and with the name.
abbrev pub rebuild : ℕ → PartInfo → Text → List Text
rebuild n info dev =
    (codes "--delete=" ++ decimal n)
    ∷ (codes "--new=" ++ (decimal n ++ (58 ∷ (decimal info.first_sector ++ codes ":0"))))
    ∷ (codes "--typecode=" ++ (decimal n ++ (58 ∷ info.type_guid)))
    ∷ (codes "--partition-guid=" ++ (decimal n ++ (58 ∷ info.unique_guid)))
    ∷ (codes "--change-name=" ++ (decimal n ++ (58 ∷ info.name)))
    ∷ dev
    ∷ []

-- Every deletion recreates the last partition that was listed, at its start, with its identity, after
-- the backup header was moved to the end of the device.
pub data Careful (host : Host) (elev : Elevation) (dev : Text) : History → Type 0 where
  nothing : Careful host elev dev []
  harmless :
      {e : Effect} {h : History}
      → deletes e ≡ false
      → Careful host elev dev h
      → Careful host elev dev (e ∷ h)
  recreated :
      {h : History} {c : Command} (n : ℕ) (info : PartInfo) (listing report moved : Output)
      → Said host elev (codes "-p" ∷ dev ∷ []) listing h
      → IsLast n (from_utf8_lossy listing.stdout)
      → Said host elev ((codes "--info=" ++ decimal n) ∷ dev ∷ []) report h
      → Reports (from_utf8_lossy report.stdout) info
      → Said host elev (codes "--move-second-header" ∷ dev ∷ []) moved h
      → Careful host elev dev h
      → Careful host elev dev (ran (codes "sgdisk") (rebuild n info dev) c ∷ h)

-- Partition `n` was deleted and recreated with success.
abbrev pub Regrown : Host → Elevation → Text → ℕ → History → Type 0
Regrown host elev dev n h =
    (info : PartInfo) × (out : Output) × Said host elev (rebuild n info dev) out h

-- What becomes of a grow.
abbrev pub Grown : Host → Elevation → Text → Result PartError ℕ × History → Type 0
Grown host elev dev r =
    Careful host elev dev r.1 × ((n : ℕ) → r.0 ≡ ok n → Regrown host elev dev n r.1)

Regrown-same :
    {host : Host} {elev : Elevation} {dev : Text} (n m : ℕ) (info : PartInfo) (out : Output)
    (h : History)
    → ◌≡◌ {A = Result PartError ℕ} (ok n) (ok m)
    → Said host elev (rebuild n info dev) out h
    → Regrown host elev dev m h
Regrown-same {host} {elev} {dev} n m info out h e worked =
    let same : n ≡ m = cc in subst (λ i. Regrown host elev dev i h) same (info, out, worked)

module _ (host : Host) (elev : Elevation) (dev : Text) where
  -- The history after a run of sgdisk.
  abbrev then_ran : List Text → History → History
  then_ran args h = ran (codes "sgdisk") args (captured elev (codes "sgdisk") args) ∷ h

  asked_elim :
      {A : Type 0} (P : Result PartError A × History → Type 0) (refusal : Output → PartError)
      (args : List Text) (h : History) (k : Output → Io History PartError A)
      (a : Result IoError Output)
      → host.run h (captured elev (codes "sgdisk") args) ≡ a
      → ((out : Output) → Said host elev args out (then_ran args h) → P (k out (then_ran args h)))
      → ((e : PartError) → P (err e, then_ran args h))
      → P (bind (asked refusal (a, then_ran args h)) k)
  asked_elim P refusal args h k (err e) answer good bad = bad _
  asked_elim P refusal args h k (ok out) answer good bad =
      if_elim (λ r. P (bind (r, then_ran args h) k)) out.success
        (λ t. good out (Said.now (captured-IsChild elev (codes "sgdisk") args) answer t))
        (λ _. bad _)

  -- A run of sgdisk is refused, or has ended well.
  sgdisk_elim :
      {A : Type 0} (P : Result PartError A × History → Type 0) (refusal : Output → PartError)
      (args : List Text) (h : History) (k : Output → Io History PartError A)
      → ((out : Output) → Said host elev args out (then_ran args h) → P (k out (then_ran args h)))
      → ((e : PartError) → P (err e, then_ran args h))
      → P (bind (sgdisk host elev dev refusal args h) k)
  sgdisk_elim P refusal args h k good bad = asked_elim P refusal args h k _ refl good bad

  run_sgdisk_elim :
      (P : Result PartError (Unit {0}) × History → Type 0) (args : List Text) (h : History)
      → ((out : Output)
          → Said host elev (args ++ (dev ∷ [])) out (then_ran (args ++ (dev ∷ [])) h)
          → P (ok tt, then_ran (args ++ (dev ∷ [])) h))
      → ((e : PartError) → P (err e, then_ran (args ++ (dev ∷ [])) h))
      → P (run_sgdisk host elev dev args h)
  unfolding run_sgdisk
  run_sgdisk_elim P args h good bad = sgdisk_elim P _ (args ++ (dev ∷ [])) h _ good bad

  listed_elim :
      (P : Result PartError ℕ × History → Type 0) (h : History)
      → let h' = then_ran (codes "-p" ∷ dev ∷ []) h in
        ((n : ℕ) (out : Output)
          → Said host elev (codes "-p" ∷ dev ∷ []) out h'
          → last_number (from_utf8_lossy out.stdout) ≡ some n
          → P (ok n, h'))
        → ((e : PartError) → P (err e, h'))
        → P (last_partition_number host elev dev h)
  unfolding last_partition_number
  listed_elim P h good bad =
      sgdisk_elim P _ (codes "-p" ∷ dev ∷ []) h _
        (λ out said. elim (Option-cases (last_number (from_utf8_lossy out.stdout))) [
          | inl none_there ↦ rw none_there (bad _)
          | inr (n, e) ↦ rw e (good n out said e)
        ])
        bad

  read_elim :
      (P : Result PartError PartInfo × History → Type 0) (h : History)
      (r : Result PartError PartInfo)
      → ((info : PartInfo) → r ≡ ok info → P (ok info, h))
      → ((e : PartError) → P (err e, h))
      → P (r, h)
  read_elim P h (ok info) good bad = good info refl
  read_elim P h (err e) good bad = bad e

  informed_elim :
      (P : Result PartError PartInfo × History → Type 0) (n : ℕ) (h : History)
      → let h' = then_ran (info_flag n ∷ dev ∷ []) h in
        ((info : PartInfo) (out : Output)
          → Said host elev (info_flag n ∷ dev ∷ []) out h'
          → read_info (from_utf8_lossy out.stdout) ≡ ok info
          → P (ok info, h'))
        → ((e : PartError) → P (err e, h'))
        → P (partition_info host elev dev n h)
  unfolding partition_info
  informed_elim P n h good bad =
      sgdisk_elim P _ (info_flag n ∷ dev ∷ []) h _
        (λ out said.
          read_elim P _ (read_info (from_utf8_lossy out.stdout)) (λ info e. good info out said e)
            bad)
        bad

  -- What follows the reading of the partition's identity.
  abbrev rewritten : ℕ → PartInfo → Io History PartError ℕ
  rewritten n info =
      run_sgdisk host elev dev move_header >> run_sgdisk host elev dev (recreate n info) >> pure n

  rewritten-Grown :
      (n : ℕ) (info : PartInfo) (listing report : Output) (h : History)
      → Said host elev (codes "-p" ∷ dev ∷ []) listing h
      → IsLast n (from_utf8_lossy listing.stdout)
      → Said host elev (info_flag n ∷ dev ∷ []) report h
      → Reports (from_utf8_lossy report.stdout) info
      → Careful host elev dev h
      → Grown host elev dev (rewritten n info h)
  unfolding starts_with
  rewritten-Grown n info listing report h listed best shown read careful =
      run_sgdisk_elim
        (λ r.
          Grown host elev dev
            (bind (bind r (λ _. run_sgdisk host elev dev (recreate n info))) (λ _. pure n)))
        move_header h
        (λ moved said.
          let done =
            Careful.recreated n info listing report moved (Said.before listed) best
              (Said.before shown) read said (Careful.harmless refl careful) in
          run_sgdisk_elim (λ r. Grown host elev dev (bind r (λ _. pure n))) (recreate n info) _
            (λ out worked. (done, λ m e. Regrown-same n m info out _ e worked))
            (λ e. (done, λ m e. cc)))
        (λ e. (Careful.harmless refl careful, λ m e. cc))

  -- From a history whose deletions were all careful, a grow of the last partition makes careful
  -- deletions only, whatever the host answers: each child whose first argument deletes a partition
  -- deletes the one with the greatest number in a listing that sgdisk printed before, and makes it
  -- anew with this number, to the largest end, with the first sector, the two GUIDs and the name
  -- that the lines of sgdisk's report on it say, after a child that moved the backup header has
  -- succeeded. If the grow returns a number, that partition was recreated with success.
  pub grow_last_partition-Grown :
      (h : History)
      → Careful host elev dev h
      → Grown host elev dev (grow_last_partition host elev dev h)
  unfolding grow_last_partition starts_with
  grow_last_partition-Grown h careful =
      listed_elim
        (λ r.
          Grown host elev dev
            (bind r (λ n. partition_info host elev dev n >>= λ info. rewritten n info)))
        h
        (λ n listing listed best.
          informed_elim (λ r. Grown host elev dev (bind r (λ info. rewritten n info))) n _
            (λ info report shown read.
              rewritten-Grown n info listing report _ (Said.before listed)
                (last_number-IsLast (from_utf8_lossy listing.stdout) n best) shown
                (read_info-Reports (from_utf8_lossy report.stdout) info read)
                (Careful.harmless refl (Careful.harmless refl careful)))
            (λ e. (Careful.harmless refl (Careful.harmless refl careful), λ m e. cc)))
        (λ e. (Careful.harmless refl careful, λ m e. cc))
