-- ===== src/Log/Session/Laws.antt =====
-- The files of a session, and those of earlier sessions (tui/src/logging.rs).
use nixnas.Base.{
  ℕ, zero, suc, ◌≡◌, refl, sym, ap, ◌∙◌, subst, Bool, true, false, not, ◌||◌, List, [], ◌∷◌, ◌++◌,
  Option, none, some, keep_if, if◌then◌else◌, Bool-cases, inl, inr,
}
use nixnas.Base.FilePath.{join}
use nixnas.Base.Text.{Text, text_eq, text_eq→eq, text_eq_refl}
use nixnas.Log.Session.{
  LogFile, Disk, Answers, Session, new, on_disk, append_line, write_to, write_line, finish,
  log_name, opened, begin_in, create_log, begin, done, flush, remove_file, remove_all, clean,
}

-- Whether a path is one of a list's.
unfoldable pub is_in : Text → List Text → Bool
unfolding text_eq
is_in p [] = false
is_in p (q ∷ qs) = let rest = is_in p qs in text_eq p q || rest

-- The files whose path is not one of these.
abbrev pub others : List Text → Disk → Disk
others ps d = keep_if (λ f. not (is_in f.path ps)) d

text_eq_sym : (s t : Text) → text_eq s t ≡ text_eq t s
text_eq_sym s t = elim (Bool-cases (text_eq s t)) [
  | inl same ↦
      ap (λ x. text_eq s x) (sym (text_eq→eq s t same))
      ∙ ap (λ x. text_eq x s) (text_eq→eq s t same)
  | inr other ↦ elim (Bool-cases (text_eq t s)) [
    | inl same ↦ let flip = ap (λ x. text_eq x t) (text_eq→eq t s same) in cc (flip, text_eq_refl t)
    | inr both ↦ other ∙ sym both
  ]
]

is_in-append : (q p : Text) (ps : List Text) → is_in q (ps ++ (p ∷ [])) ≡ is_in q ps || text_eq q p
unfolding is_in
is_in-append q p [] = elim (Bool-cases (text_eq q p)) [ inl y ↦ rw y refl | inr n ↦ rw n refl ]
is_in-append q p (r ∷ ps) = elim (Bool-cases (text_eq q r)) [
  | inl y ↦ rw y refl
  | inr n ↦ rw n (is_in-append q p ps)
]

-- A line for one of the files that are left aside does not show.
others-append_line :
    (ps : List Text) (now : ℕ) (p s : Text) (d : Disk)
    → is_in p ps ≡ true
    → others ps (append_line now p s d) ≡ others ps d
unfolding append_line
others-append_line ps now p s [] own = refl
others-append_line ps now p s (f ∷ d) own = elim (Bool-cases (text_eq p f.path)) [
  | inl same ↦
      let aside : is_in f.path ps ≡ true =
        subst (λ x. is_in x ps ≡ true) (text_eq→eq p f.path same) own in
      rw (same, aside) (others-append_line ps now p s d own)
  | inr other ↦ rw (other, others-append_line ps now p s d own) refl
]

or-true : (b : Bool) → (b || true) ≡ true
or-true true = refl
or-true false = refl

or-false :
    (b : Bool) (f : LogFile) (d : Disk) (ps : List Text)
    → (if not (b || false) then f ∷ others ps d else others ps d)
      ≡ (if not b then f ∷ others ps d else others ps d)
or-false true f d ps = refl
or-false false f d ps = refl

-- A path that is not on the disk takes no file away.
others-fresh :
    (ps : List Text) (p : Text) (d : Disk)
    → on_disk p d ≡ false
    → others (ps ++ (p ∷ [])) d ≡ others ps d
unfolding on_disk
others-fresh ps p [] away = refl
others-fresh ps p (f ∷ d) away = elim (Bool-cases (text_eq p f.path)) [
  | inl same ↦ let never = rw same at away in cc never
  | inr other ↦
      let rest = rw other at away in
      let apart : text_eq f.path p ≡ false = text_eq_sym f.path p ∙ other in
      rw (is_in-append f.path p ps, apart, others-fresh ps p d rest)
        (or-false (is_in f.path ps) f d ps)
]

-- `remove_file` leaves the other files.
others-remove_file :
    (p : Text) (ps : List Text) (d : Disk) → others ps (remove_file p d) ≡ others (p ∷ ps) d
unfolding remove_file is_in
others-remove_file p ps [] = refl
others-remove_file p ps (f ∷ d) = elim (Bool-cases (text_eq p f.path)) [
  | inl same ↦ rw (same, text_eq_sym f.path p, same) (others-remove_file p ps d)
  | inr other ↦ rw (other, text_eq_sym f.path p, other, others-remove_file p ps d) refl
]

others-nil : (d : Disk) → others [] d ≡ d
unfolding is_in
others-nil [] = refl
others-nil (f ∷ d) = ap (λ rest. f ∷ rest) (others-nil d)

-- What `remove_all` leaves, when nothing is stuck.
pub remove_all-others :
    (ans : Answers) (ps : List Text) (d : Disk)
    → ((p : Text) → ans.stuck p ≡ false)
    → remove_all ans ps d ≡ others ps d
unfolding remove_all is_in
remove_all-others ans [] d free = sym (others-nil d)
remove_all-others ans (p ∷ ps) d free =
    rw (free p) (remove_all-others ans ps (remove_file p d) free ∙ others-remove_file p ps d)

-- The files of this session are aside; all others are as they were before it. An open file is one of its.
pub record IsKept (before : Disk) (q : Session) : Type 0 where
  pub others_kept : others q.log.files q.disk ≡ before
  pub own_writer : (w : Text) → q.log.writer ≡ some w → is_in w q.log.files ≡ true

write_to-IsKept :
    (before : Disk) (ans : Answers) (s : Text) (q : Session) (w : Option Text)
    → q.log.writer ≡ w
    → IsKept before q
    → IsKept before (write_to w ans s q)
write_to-IsKept before ans s q none e kept = kept
write_to-IsKept before ans s q (some p) e kept = elim (Bool-cases (ans.full p)) [
  | inl full ↦ rw full (record { others_kept = kept.others_kept; own_writer = λ w e'. cc e' })
  | inr takes ↦ rw takes (record {
    others_kept =
        others-append_line q.log.files ans.now p s q.disk (kept.own_writer p e) ∙ kept.others_kept;
    own_writer = kept.own_writer;
  })
]

pub write_line-IsKept :
    (before : Disk) (ans : Answers) (s : Text) (q : Session)
    → IsKept before q
    → IsKept before (write_line ans s q)
unfolding write_line
write_line-IsKept before ans s q kept = write_to-IsKept before ans s q q.log.writer refl kept

finish-IsKept :
    (before : Disk) (q : Session)
    → IsKept before q
    → IsKept before (record q { log = finish q.log })
finish-IsKept before q kept = record { others_kept = kept.others_kept; own_writer = λ w e. cc e }

opened-IsKept :
    (before : Disk) (ans : Answers) (action stamp path : Text) (q : Session)
    → on_disk path q.disk ≡ false
    → IsKept before q
    → IsKept before (opened ans action stamp path q)
opened-IsKept before ans action stamp path q away kept =
    let own : is_in path (q.log.files ++ (path ∷ [])) ≡ true =
      is_in-append path path q.log.files
      ∙ (rw (text_eq_refl path) (or-true (is_in path q.log.files))) in
    write_line-IsKept before ans _ _ (record {
      others_kept = rw own (others-fresh q.log.files path q.disk away ∙ kept.others_kept);
      own_writer = λ w e.
          let same : path ≡ w = cc e in
          subst (λ x. is_in x (q.log.files ++ (path ∷ [])) ≡ true) same own;
    })

create_log-IsKept :
    (before : Disk) (ans : Answers) (dir action stamp : Text) (left n : ℕ) (q : Session)
    → IsKept before q
    → IsKept before (create_log ans dir action stamp left n q).1
unfolding create_log
create_log-IsKept before ans dir action stamp zero n q kept = kept
create_log-IsKept before ans dir action stamp (suc left) n q kept =
    let path = join dir (log_name action stamp n) in
    elim (Bool-cases (on_disk path q.disk)) [
      | inl there ↦ rw there (create_log-IsKept before ans dir action stamp left (suc n) q kept)
      | inr away ↦ elim (Bool-cases (ans.refuses path)) [
        | inl refused ↦ rw (away, refused) kept
        | inr taken ↦ rw (away, taken) (opened-IsKept before ans action stamp path q away kept)
      ]
    ]

begin_in-IsKept :
    (before : Disk) (ans : Answers) (action stamp : Text) (dir : Option Text) (q : Session)
    → IsKept before q
    → IsKept before (begin_in dir ans action stamp q).1
unfolding create_log
begin_in-IsKept before ans action stamp none q kept = kept
begin_in-IsKept before ans action stamp (some dir) q kept = elim (Bool-cases ans.has_dir) [
  | inl has ↦ rw has (create_log-IsKept before ans dir action stamp 100 0 q kept)
  | inr lacks ↦ rw lacks kept
]

-- What a session can do with its log before the program ends, from a disk.
pub data Logged (before : Disk) : Session → Type 0 where
  opened_session : (dir : Option Text) → Logged before (record { log = new dir; disk = before })
  began :
      (ans : Answers) (action stamp : Text) {q : Session}
      → Logged before q
      → Logged before (begin ans action stamp q).1
  wrote :
      (ans : Answers) (s : Text) {q : Session}
      → Logged before q
      → Logged before (write_line ans s q)
  ended :
      (ans : Answers) (good : Bool) (msg : Text) {q : Session}
      → Logged before q
      → Logged before (done ans good msg q)
  flushed : {q : Session} → Logged before q → Logged before (record q { log = flush q.log })

Logged-IsKept : {before : Disk} {q : Session} → Logged before q → IsKept before q
unfolding begin done is_in
Logged-IsKept {before} (opened_session dir) = record {
  others_kept = others-nil before;
  own_writer = λ w e. cc e;
}
Logged-IsKept {before} (began ans action stamp {q} past) =
    begin_in-IsKept before ans action stamp q.log.dir _
      (finish-IsKept before q (Logged-IsKept past))
Logged-IsKept {before} (wrote ans s {q} past) =
    write_line-IsKept before ans s q (Logged-IsKept past)
Logged-IsKept {before} (ended ans good msg {q} past) =
    finish-IsKept before _ (write_line-IsKept before ans _ q (Logged-IsKept past))
Logged-IsKept (flushed past) =
    let kept = Logged-IsKept past in
    record { others_kept = kept.others_kept; own_writer = kept.own_writer }

-- Whatever was logged since, CLEAN at the end of a session leaves the disk as the session found it, if no
-- file resists its removal: its own files are gone, and no file of an earlier session has changed.
pub clean-restores :
    {before : Disk} {q : Session} (ans : Answers)
    → Logged before q
    → ((p : Text) → ans.stuck p ≡ false)
    → (clean ans q).disk ≡ before
unfolding clean
clean-restores {before} {q} ans past free =
    remove_all-others ans q.log.files q.disk free ∙ (Logged-IsKept past).others_kept
