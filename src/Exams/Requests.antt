-- ===== src/Exams/Requests.antt =====
-- The requests and the timers that write the table of exams, in any order: index.ts POST /api/exams,
-- POST /api/exams/:id/end and the daily purge, and the hub's end of an exam (org_hub.ts `examTick`).
use labkiosk.Shared.{
  ℕ, ◌/◌, ◌≤◌, ◌≡◌, ◌⊎◌, Bool, not, Option, List, [], ◌∷◌, map, String, string_eq, leb, arith,
  if◌then◌else◌, Bool-cases, inl, inr, count,
}
use labkiosk.Shared.Result.{ok, throw, Outcome-cases}
use labkiosk.Json.{Json}
use labkiosk.Web.{Runtime}
use labkiosk.Exams.{ExamRow, ExamInput, ExamWindow, exam_end, exam_window}
use labkiosk.Exams.Parsing.{ExamInputError, parse_exam_input}
use labkiosk.Exams.Accepted.{parse_exam_input-bounds}
use labkiosk.Exams.Sessions.{
  CreateResult, create_exam, end_exam, end_row, EndResult, ended_now, already_ended, not_found,
  is_old, purge_old_exams,
}
use labkiosk.Exams.Finish.{ExamTables, finish_exam, finalize, reset_epoch}
use labkiosk.Exams.Finish.Resets.{finish_exam-sessions}
use labkiosk.Exams.Disjoint.{
  AreDisjoint, overlap, create-AreDisjoint, map-end_row-AreDisjoint, map-AreDisjoint,
  filter-AreDisjoint, holds_now, running_at_most_one,
}

pub data PostReply : Type 0 where
  bad_input : ExamInputError → PostReply
  answered : CreateResult → PostReply

-- `tick` is the hub ending an exam that it has in view; `purge` the daily run.
pub data Request : Type 0 where
  post : String → List String → Json → Option String → ℕ → String → Request
  end : String → String → Option String → ℕ → ℕ → ℕ → Request
  tick : ExamWindow → ℕ → ℕ → Request
  purge : ℕ → Request

end_cases :
    (rows : List ExamRow) (tenant id : String) (user : Option String) (now : ℕ)
    → ((end_exam rows tenant id user now).0 ≡ rows)
      ⊎ ((end_exam rows tenant id user now).0 ≡ map (end_row id user now) rows)
unfolding end_exam
end_cases rows tenant id user now = ground arith

module _ (runtime : Runtime) (sql_le : String → String → Bool) where
  unfoldable pub post_exam :
      ExamTables → String → List String → Json → Option String → ℕ → String → ExamTables × PostReply
  post_exam db tenant groups body user now new_id =
      elim (parse_exam_input runtime body groups now) [
        | throw reason ↦ (db, bad_input reason)
        | ok input ↦
            let made = create_exam db.exam_sessions tenant input user now new_id in
            (record db { exam_sessions = made.0 }, answered made.1)
      ]

  -- The exam that was ended is sent back to the portal here if it ran.
  after_end : ExamTables → EndResult → ℕ → ℕ → ℕ → ExamTables
  after_end db (ended_now exam) now now_ms clock =
      if leb exam.starts_at now
      then (finish_exam sql_le db (exam_window exam) now_ms clock).0
      else db
  after_end db not_found now now_ms clock = db
  after_end db already_ended now now_ms clock = db

  unfoldable pub post_end :
      ExamTables → String → String → Option String → ℕ → ℕ → ℕ → ExamTables × EndResult
  unfolding after_end
  post_end db tenant id user now now_ms clock =
      let result = end_exam db.exam_sessions tenant id user now in
      (after_end (record db { exam_sessions = result.0 }) result.1 now now_ms clock, result.1)

  unfoldable pub step : ExamTables → Request → ExamTables
  unfolding post_exam post_end
  step db (post tenant groups body user now new_id) =
      (post_exam db tenant groups body user now new_id).0
  step db (end tenant id user now now_ms clock) = (post_end db tenant id user now now_ms clock).0
  step db (tick exam now_ms clock) = (finish_exam sql_le db exam now_ms clock).0
  step db (purge now) =
      let left = purge_old_exams db.exam_sessions db.exam_events now in
      record db { exam_sessions = left.0; exam_events = left.1 }

  unfoldable pub serve : ExamTables → List Request → ExamTables
  unfolding step
  serve db [] = db
  serve db (r ∷ rest) = serve (step db r) rest

  finalize-overlap :
      (id : String) (at : ℕ) (a b : ExamRow)
      → overlap (finalize id at a) (finalize id at b) ≡ overlap a b
  unfolding exam_end
  finalize-overlap id at a b = ground arith

  finish-AreDisjoint :
      (db : ExamTables) (exam : ExamWindow) (now_ms clock : ℕ)
      → AreDisjoint db.exam_sessions
      → AreDisjoint (finish_exam sql_le db exam now_ms clock).0.exam_sessions
  finish-AreDisjoint db exam now_ms clock x =
      rw (finish_exam-sessions sql_le db exam now_ms clock) (
        map-AreDisjoint (finalize exam.id (reset_epoch exam now_ms / 1000)) db.exam_sessions
          (finalize-overlap exam.id (reset_epoch exam now_ms / 1000)) x)

  -- What `post_exam` leaves: the exams as they were, or with one that was parsed.
  pub post_cases :
      (db : ExamTables) (tenant : String) (groups : List String) (body : Json)
      (user : Option String) (now : ℕ) (new_id : String)
      → ((post_exam db tenant groups body user now new_id).0.exam_sessions ≡ db.exam_sessions)
        ⊎ ((input : ExamInput) × (parse_exam_input runtime body groups now ≡ ok input)
            × ((post_exam db tenant groups body user now new_id).0.exam_sessions
                ≡ (create_exam db.exam_sessions tenant input user now new_id).0))
  unfolding post_exam
  post_cases db tenant groups body user now new_id =
      elim (Outcome-cases (parse_exam_input runtime body groups now)) [
        | inl (input, e) ↦ inr (input, e, ground arith)
        | inr (reason, e) ↦ inl (ground arith)
      ]

  after_end-AreDisjoint :
      (db : ExamTables) (result : EndResult) (now now_ms clock : ℕ)
      → AreDisjoint db.exam_sessions
      → AreDisjoint (after_end db result now now_ms clock).exam_sessions
  unfolding after_end
  after_end-AreDisjoint db (ended_now exam) now now_ms clock x =
      elim (Bool-cases (leb exam.starts_at now)) [
        | inl ran ↦ rw ran (finish-AreDisjoint db (exam_window exam) now_ms clock x)
        | inr early ↦ rw early x
      ]
  after_end-AreDisjoint db not_found now now_ms clock x = x
  after_end-AreDisjoint db already_ended now now_ms clock x = x

  end_exam-AreDisjoint :
      (rows : List ExamRow) (tenant id : String) (user : Option String) (now : ℕ)
      → AreDisjoint rows
      → AreDisjoint (end_exam rows tenant id user now).0
  end_exam-AreDisjoint rows tenant id user now x = elim (end_cases rows tenant id user now) [
    | inl same ↦ rw same x
    | inr left ↦ rw left (map-end_row-AreDisjoint id user now rows x)
  ]

  step-AreDisjoint :
      (db : ExamTables) (r : Request)
      → AreDisjoint db.exam_sessions
      → AreDisjoint (step db r).exam_sessions
  unfolding step post_end purge_old_exams
  step-AreDisjoint db (post tenant groups body user now new_id) x =
      elim (post_cases db tenant groups body user now new_id) [
        | inl same ↦ rw same x
        | inr (input, parsed, left) ↦ rw left (
            create-AreDisjoint db.exam_sessions tenant input user now new_id
              (parse_exam_input-bounds runtime groups now body input parsed).0 x)
      ]
  step-AreDisjoint db (end tenant id user now now_ms clock) x =
      after_end-AreDisjoint
        (record db { exam_sessions = (end_exam db.exam_sessions tenant id user now).0 })
        (end_exam db.exam_sessions tenant id user now).1 now now_ms clock
        (end_exam-AreDisjoint db.exam_sessions tenant id user now x)
  step-AreDisjoint db (tick exam now_ms clock) x = finish-AreDisjoint db exam now_ms clock x
  step-AreDisjoint db (purge now) x =
      filter-AreDisjoint (λ e. not (is_old now e)) db.exam_sessions x

  serve-AreDisjoint :
      (db : ExamTables) (requests : List Request)
      → AreDisjoint db.exam_sessions
      → AreDisjoint (serve db requests).exam_sessions
  unfolding serve
  serve-AreDisjoint db [] x = x
  serve-AreDisjoint db (r ∷ rest) x = serve-AreDisjoint (step db r) rest (step-AreDisjoint db r x)

  -- From tables where no two exams overlap, and so from empty ones, after any requests and timers, of
  -- any organizations and at any times, at most one exam of an organization runs over a workstation
  -- at a time.
  pub serve-exclusive :
      (db : ExamTables) (requests : List Request) (tenant : String) (group : Option String) (t : ℕ)
      → AreDisjoint db.exam_sessions
      → count (holds_now tenant t group) (serve db requests).exam_sessions ≤ 1
  serve-exclusive db requests tenant group t x =
      running_at_most_one tenant t group (serve db requests).exam_sessions
        (serve-AreDisjoint db requests x)
