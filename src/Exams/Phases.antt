-- ===== src/Exams/Phases.antt =====
-- The life of an exam: its phases only move on, and ending it ends it for good.
use labkiosk.Shared.{
  ℕ, ◌≤◌, ◌<◌, ◌≡◌, Option, none, some, List, [], ◌∷◌, map, String, string_eq, leb, if◌then◌else◌,
  arith,
}
use labkiosk.Exams.{ExamRow, ExamPhase, scheduled, running, ended, exam_end, exam_phase}
use labkiosk.Exams.Sessions.{find_exam, end_row, end_exam, ended_now}

abbrev pub rank : ExamPhase → ℕ
rank scheduled = 0
rank running = 1
rank ended = 2

-- As time passes an exam goes from scheduled to running to ended and never back.
pub exam_phase_forward :
    (row : ExamRow) (now later : ℕ)
    → now ≤ later
    → rank (exam_phase row now) ≤ rank (exam_phase row later)
unfolding exam_phase
exam_phase_forward row now later h = ground arith

abbrev ended_row : ExamRow → Option String → ℕ → ExamRow
ended_row row user now = record row { ended_at = some now; ended_by = user }

module _ (id : String) (user : Option String) (now : ℕ) where
  find-end_row :
      (tenant : String) (rows : List ExamRow) (row : ExamRow)
      → find_exam rows tenant id ≡ some row
      → row.ended_at ≡ none
      → find_exam (map (end_row id user now) rows) tenant id ≡ some (ended_row row user now)
  unfolding find_exam end_row
  find-end_row tenant [] row h k = cc
  find-end_row tenant (e ∷ rows) row h k = ground (arith, find-end_row tenant rows row)

  ended_row-phase :
      (row : ExamRow) (t : ℕ)
      → now < exam_end row
      → row.ended_at ≡ none
      → exam_phase (ended_row row user now) t ≡ (if leb now t then ended else exam_phase row t)
  unfolding exam_phase exam_end
  ended_row-phase row t h k = ground arith

  -- Ending an exam that has not ended, and was not ended by hand before, succeeds: from that second
  -- on the stored exam is ended, and before it the phases are what they were.
  pub end_exam_ends :
      (tenant : String) (rows : List ExamRow) (row : ExamRow) (t : ℕ)
      → find_exam rows tenant id ≡ some row
      → row.ended_at ≡ none
      → now < exam_end row
      → (stored : ExamRow) × ((end_exam rows tenant id user now).1 ≡ ended_now stored)
        × (find_exam (end_exam rows tenant id user now).0 tenant id ≡ some stored)
        × (exam_phase stored t ≡ (if leb now t then ended else exam_phase row t))
  unfolding end_exam exam_phase
  end_exam_ends tenant rows row t f k h = (
    ended_row row user now,
    ground arith,
    ground (arith, find-end_row tenant rows row f k),
    ended_row-phase row t h k,
  )
