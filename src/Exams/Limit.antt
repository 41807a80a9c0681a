-- ===== src/Exams/Limit.antt =====
-- How many exams of an organization are open at once.
use labkiosk.Shared.{
  ℕ, ◌≤◌, Bool, Option, List, [], ◌∷◌, String, string_eq, arith, inl, inr, count, length-filter,
  count-append, eq_iff, ap,
}
use labkiosk.Json.{Json}
use labkiosk.Web.{Runtime}
use labkiosk.Exams.{ExamRow}
use labkiosk.Exams.Sessions.{exam_of, open_exams, is_open, max_open}
use labkiosk.Exams.Disjoint.{create_cases}
use labkiosk.Exams.Finish.{ExamTables}
use labkiosk.Exams.Requests.{post_exam, post_cases}

-- What is open later was open before.
count_open_later :
    (tenant : String) (now t : ℕ) (rows : List ExamRow)
    → now ≤ t
    → count (is_open tenant t) rows ≤ count (is_open tenant now) rows
count_open_later tenant now t [] h = omega arith
count_open_later tenant now t (e ∷ rows) h = ground (arith, count_open_later tenant now t rows h)

module _ (runtime : Runtime) (sql_le : String → String → Bool) where
  -- A request for an exam takes no organization past 50 exams that are open at a time, the time of
  -- the request or a later one, if it had at most 50 that are.
  pub open_count-post :
      (db : ExamTables) (tenant : String) (groups : List String) (body : Json)
      (user : Option String) (now : ℕ) (new_id whose : String) (t : ℕ)
      → now ≤ t
      → count (is_open whose t) db.exam_sessions ≤ max_open
      → count
          (is_open whose t)
          (post_exam runtime sql_le db tenant groups body user now new_id).0.exam_sessions
        ≤ max_open
  unfolding open_exams exam_of
  open_count-post db tenant groups body user now new_id whose t later h =
      elim (post_cases runtime sql_le db tenant groups body user now new_id) [
        | inl same ↦ rw same h
        | inr (input, parsed, left) ↦
            elim (create_cases db.exam_sessions tenant input user now new_id) [
              | inl same ↦ rw (left, same) h
              | inr (put, free, room, _) ↦
                  rw
                    (
                      left,
                      put,
                      count-append (is_open whose t) db.exam_sessions
                          (exam_of new_id tenant input user now ∷ []),
                    )
                    (ground (
                      arith,
                      count_open_later whose now t db.exam_sessions later,
                      length-filter (is_open tenant now) db.exam_sessions,
                      eq_iff tenant whose,
                      ap (λ w. count (is_open w now) db.exam_sessions) {x = tenant} {y = whose},
                    ))
            ]
      ]
