-- ===== src/Log/Session.antt =====
-- The files of a session's logs (tui/src/logging.rs, `SessionLog`). Buffering is left aside: a line that
-- the writer takes is in the file at once.
pub mod Laws
use nixnas.Base.{
  ℕ, zero, suc, ◌-◌, Bool, true, false, not, ◌&&◌, ◌||◌, ◌==◌, leb, ltb, List, [], ◌∷◌, ◌++◌,
  Option, none, some, if◌then◌else◌, is_empty, is_some, length, take, drop, keep_if, map,
}
use nixnas.Base.FilePath.{join, has_extension, is_absolute}
use nixnas.Base.Text.{Text, codes, text_eq, decimal}
use nixnas.Build.Steps.{StepState, pending, running, skipped, fail}

-- A file: its lines, and the time of its last change.
pub record LogFile : Type 0 where
  pub path : Text
  pub mtime : ℕ
  pub lines : List Text

-- The directory of the logs.
abbrev pub Disk : Type 0
Disk = List LogFile

-- What the file system answers during one operation: whether the directory can be made or read, which
-- paths it refuses to open, which take no more lines, which cannot be removed or looked at, and the
-- time.
pub record Answers : Type 0 where
  pub has_dir : Bool
  pub refuses : Text → Bool
  pub full : Text → Bool
  pub stuck : Text → Bool
  pub hidden : Text → Bool
  pub now : ℕ

pub record SessionLog : Type 0 where
  pub dir : Option Text
  pub files : List Text
  pub writer : Option Text  -- the path of the open file
  pub dirty : Bool

pub record Session : Type 0 where
  pub log : SessionLog
  pub disk : Disk

-- `RETAIN`
abbrev pub retain : ℕ
retain = 20

abbrev home_state : Option Text → Option Text
home_state none = none
home_state (some h) = some (join h (codes ".local/state"))

abbrev absolute_or : Option Text → Option Text → Option Text
absolute_or none other = other
absolute_or (some p) other = if is_absolute p then some p else other

abbrev in_state : Option Text → Option Text
in_state none = none
in_state (some state) = some (join (join state (codes "nixnas")) (codes "logs"))

-- `logs_dir`, from the variables XDG_STATE_HOME and HOME.
unfoldable pub logs_dir : Option Text → Option Text → Option Text
unfolding join
logs_dir xdg_state_home home = in_state (absolute_or xdg_state_home (home_state home))

-- `SessionLog::new`
abbrev pub new : Option Text → SessionLog
new dir = record { dir = dir; files = []; writer = none; dirty = false }

unfoldable pub on_disk : Text → Disk → Bool
unfolding text_eq
on_disk p [] = false
on_disk p (f ∷ fs) = let rest = on_disk p fs in text_eq p f.path || rest

-- A line at the end of the file at a path.
unfoldable pub append_line : ℕ → Text → Text → Disk → Disk
unfolding text_eq
append_line now p s [] = []
append_line now p s (f ∷ fs) =
    let rest = append_line now p s fs in
    (if text_eq p f.path then record f { mtime = now; lines = f.lines ++ (s ∷ []) } else f) ∷ rest

abbrev pub write_to : Option Text → Answers → Text → Session → Session
write_to none ans s q = q
write_to (some p) ans s q =
    if ans.full p
    then record q { log = record q.log { writer = none } }
    else record { log = record q.log { dirty = true }; disk = append_line ans.now p s q.disk }

-- `write_line`
unfoldable pub write_line : Answers → Text → Session → Session
unfolding append_line
write_line ans s q = write_to q.log.writer ans s q

-- `finish`: the file is closed.
abbrev pub finish : SessionLog → SessionLog
finish log = record log { writer = none }

abbrev pub log_name : Text → Text → ℕ → Text
log_name action stamp zero = action ++ (codes "-" ++ (stamp ++ codes ".log"))
log_name action stamp (suc n) =
    action ++ (codes "-" ++ (stamp ++ (codes "." ++ (decimal (suc n) ++ codes ".log"))))

-- The file that `create_new` made, open, with its first line.
abbrev pub opened : Answers → Text → Text → Text → Session → Session
opened ans action stamp path q =
    write_line ans (codes "[start] " ++ (action ++ (codes " — " ++ stamp))) (record {
      log = record q.log { writer = some path; files = q.log.files ++ (path ∷ []) };
      disk = record { path = path; mtime = ans.now; lines = [] } ∷ q.disk;
    })

-- The loop over the suffixes of a name, with how many are left.
unfoldable pub create_log : Answers → Text → Text → Text → ℕ → ℕ → Session → Option Text × Session
unfolding on_disk write_line join decimal
create_log ans dir action stamp zero n q = (none, q)
create_log ans dir action stamp (suc left) n q =
    let path = join dir (log_name action stamp n) in
    let rest = create_log ans dir action stamp left (suc n) q in
    if on_disk path q.disk
    then rest
    else if ans.refuses path
    then (none, q)
    else (some path, opened ans action stamp path q)

abbrev pub begin_in : Option Text → Answers → Text → Text → Session → Option Text × Session
begin_in none ans action stamp q = (none, q)
begin_in (some dir) ans action stamp q =
    if ans.has_dir then create_log ans dir action stamp 100 0 q else (none, q)

-- `begin`, at the time that the stamp names.
unfoldable pub begin : Answers → Text → Text → Session → Option Text × Session
unfolding create_log
begin ans action stamp q = begin_in q.log.dir ans action stamp (record q { log = finish q.log })

abbrev state_name : StepState → Text
state_name pending = codes "Pending"
state_name running = codes "Running"
state_name StepState.ok = codes "Ok"
state_name skipped = codes "Skipped"
state_name fail = codes "Fail"

-- `step`
abbrev pub step : Answers → Text → StepState → Session → Session
step ans name state = write_line ans (codes "[step] " ++ (name ++ (codes ": " ++ state_name state)))

-- `phase`
abbrev pub phase : Answers → Text → Session → Session
phase ans title = write_line ans (codes "[phase] " ++ title)

-- `done`
unfoldable pub done : Answers → Bool → Text → Session → Session
unfolding write_line
done ans ok msg q =
    let written =
      write_line ans
        (codes "[done] " ++ ((if ok then codes "OK" else codes "FAIL") ++ (codes ": " ++ msg))) q in
    record written { log = finish written.log }

-- `flush`
abbrev pub flush : SessionLog → SessionLog
flush log = record log { dirty = false }

-- `remove_file`
unfoldable pub remove_file : Text → Disk → Disk
unfolding text_eq
remove_file p [] = []
remove_file p (f ∷ fs) = let rest = remove_file p fs in if text_eq p f.path then rest else f ∷ rest

unfoldable pub remove_all : Answers → List Text → Disk → Disk
unfolding remove_file
remove_all ans [] d = d
remove_all ans (p ∷ ps) d = remove_all ans ps (if ans.stuck p then d else remove_file p d)

-- `clean`
unfoldable pub clean : Answers → Session → Session
unfolding remove_all
clean ans q = record {
  log = record q.log { files = []; writer = none };
  disk = remove_all ans q.log.files q.disk;
}

abbrev pub is_log : LogFile → Bool
is_log f = has_extension (codes "log") f.path

-- `sort_by_key`, which keeps the order of equal keys.
unfoldable pub insert_by_mtime : LogFile → Disk → Disk
insert_by_mtime f [] = f ∷ []
insert_by_mtime f (g ∷ gs) =
    let rest = insert_by_mtime f gs in if leb f.mtime g.mtime then f ∷ g ∷ gs else g ∷ rest

unfoldable pub sort_by_mtime : Disk → Disk
unfolding insert_by_mtime
sort_by_mtime [] = []
sort_by_mtime (f ∷ fs) = insert_by_mtime f (sort_by_mtime fs)

abbrev last : List Text → Option Text
last [] = none
last (p ∷ []) = some p
last (_ ∷ p ∷ ps) = last (p ∷ ps)

abbrev pub trace_in : Option Text → Answers → ℕ → Disk → Disk
trace_in none ans pruned d = d
trace_in (some p) ans pruned d =
    if ans.refuses p
    then d
    else append_line ans.now p
        (codes "[retention] pruned "
          ++ (decimal pruned
              ++ (codes " older log file(s) — newest " ++ (decimal retain ++ codes " kept"))))
        d

-- How many of the oldest are removed leaves a trace in the session's newest file.
abbrev pub prune : Answers → List Text → Disk → Disk → Disk
prune ans files old d =
    let paths = map (λ f. f.path) old in
    let pruned = length (keep_if (λ p. not (ans.stuck p)) paths) in
    let left = remove_all ans paths d in
    let traced = trace_in (last files) ans pruned left in if ltb 0 pruned then traced else left

-- The logs that are found, the oldest first.
abbrev pub oldest_first : Answers → Disk → Disk
oldest_first ans d = sort_by_mtime (keep_if (λ f. is_log f && not (ans.hidden f.path)) d)

abbrev pruned_disk : Answers → List Text → Disk → Disk
pruned_disk ans files d =
    let logs = oldest_first ans d in
    if leb (length logs) retain then d else prune ans files (take (length logs - retain) logs) d

abbrev prune_in : Option Text → Answers → Session → Session
prune_in none ans q = q
prune_in (some dir) ans q =
    if ans.has_dir then record q { disk = pruned_disk ans q.log.files q.disk } else q

-- `keep_and_prune`
unfoldable pub keep_and_prune : Answers → Session → Session
unfolding remove_all sort_by_mtime append_line has_extension decimal
keep_and_prune ans q = prune_in q.log.dir ans (record q { log = finish q.log })
