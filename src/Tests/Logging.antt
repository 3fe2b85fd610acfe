-- ===== src/Tests/Logging.antt =====
-- A session with one log, beside a log of an earlier session (tui/src/logging.rs).
use nixnas.Base.{◌≡◌, refl, [], ◌∷◌, some, true, false}
use nixnas.Base.Text.{codes}
use nixnas.Log.Session.{Disk, Answers, Session, begin, write_line, clean, on_disk}
use nixnas.Log.Session.Laws.{opened_session, began, wrote, clean-restores}

abbrev pub answers : Answers
answers = record {
  has_dir = true;
  refuses = λ p. false;
  full = λ p. false;
  stuck = λ p. false;
  hidden = λ p. false;
  now = 9;
}

-- The earlier log has the name that the next one would have.
abbrev pub earlier : Disk
earlier = record { path = codes "/logs/flash-1.log"; mtime = 3; lines = codes "[start]" ∷ [] } ∷ []

abbrev session : Session
session =
    write_line answers (codes "a line")
      (begin answers (codes "flash") (codes "1")
        (record { log = nixnas.Log.Session.new (some (codes "/logs")); disk = earlier })).1

second_name : on_disk (codes "/logs/flash-1.1.log") session.disk ≡ true
unfolding on_disk begin write_line
second_name = refl

clean-restores_example : (clean answers session).disk ≡ earlier
clean-restores_example =
    clean-restores answers
      (wrote answers (codes "a line")
        (began answers (codes "flash") (codes "1") (opened_session (some (codes "/logs")))))
      (λ p. refl)
