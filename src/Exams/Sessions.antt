-- ===== src/Exams/Sessions.antt =====
-- exams.ts: the table of exams, and what opens, ends and removes one.
use labkiosk.Shared.{
  ℕ, ◌+◌, ◌*◌, Bool, true, not, ◌&&◌, ◌||◌, Option, none, some, List, [], ◌∷◌, ◌++◌, map, String,
  ◌==◌, string_eq, option_eq, leb, ltb, length, filter, find, sort, any, is_none, if◌then◌else◌,
}
use labkiosk.Exams.{
  stored_array, stored_text, ExamRow, ExamInput, ExamWindow, ExamPhase, ended, running, scheduled,
  exam_end, exam_phase, exam_window,
}

abbrev pub max_open : ℕ
max_open = 50

abbrev retention_seconds : ℕ
retention_seconds = 90 * 86400

-- `ended_at IS NULL OR ended_at > ?`
abbrev ends_after : ℕ → Option ℕ → Bool
ends_after now none = true
ends_after now (some ended_at) = ltb now ended_at

abbrev pub is_open : String → ℕ → ExamRow → Bool
is_open tenant now e = e.tenant_id == tenant && ltb now e.ends_at && ends_after now e.ended_at

unfoldable pub open_exams : List ExamRow → String → ℕ → List ExamRow
open_exams sessions tenant now = filter (is_open tenant now) sessions

-- `a === null || b === null || a === b`
abbrev pub share_workstations : Option String → Option String → Bool
share_workstations a b = is_none a || is_none b || a == b

unfoldable pub clashes : ExamInput → ExamRow → Bool
unfolding exam_end
clashes input e =
    ltb e.starts_at input.ends_at
    && ltb input.starts_at (exam_end e)
    && share_workstations e.group_name input.group_name

unfoldable pub exam_of : String → String → ExamInput → Option String → ℕ → ExamRow
exam_of id tenant input user now = record {
  id = id;
  tenant_id = tenant;
  title = input.title;
  group_name = input.group_name;
  exam_url = input.url;
  allowed_hosts = stored_array (map stored_text input.hosts);
  starts_at = input.starts_at;
  ends_at = input.ends_at;
  ended_at = none;
  finalized_at = none;
  created_by = user;
  ended_by = none;
  created_at = now;
}

-- `refused_row` is what a constraint of the table makes of the INSERT: an exception.
pub data CreateResult : Type 0 where
  created : String → CreateResult
  too_many : CreateResult
  overlaps : ExamRow → CreateResult
  refused_row : CreateResult

-- The id is the primary key, and CHECK (ends_at > starts_at).
unfoldable pub insert_exam : List ExamRow → ExamRow → List ExamRow × CreateResult
insert_exam sessions row =
    if any (λ e. e.id == row.id) sessions || leb row.ends_at row.starts_at
    then (sessions, refused_row)
    else (sessions ++ row ∷ [], created row.id)

unfoldable pub create_exam :
    List ExamRow → String → ExamInput → Option String → ℕ → String → List ExamRow × CreateResult
unfolding open_exams insert_exam exam_of
create_exam sessions tenant input user now new_id =
    let open_now = open_exams sessions tenant now in
    if leb max_open (length open_now)
    then (sessions, too_many)
    else elim (find (clashes input) open_now) [
      | none ↦ insert_exam sessions (exam_of new_id tenant input user now)
      | some clash ↦ (sessions, overlaps clash)
    ]

unfoldable pub find_exam : List ExamRow → String → String → Option ExamRow
find_exam sessions tenant id = find (λ e. e.tenant_id == tenant && e.id == id) sessions

-- `SET ended_at = ?, ended_by = ? WHERE id = ? AND ended_at IS NULL`
unfoldable pub end_row : String → Option String → ℕ → ExamRow → ExamRow
end_row id user now e =
    if e.id == id && is_none e.ended_at
    then record e { ended_at = some now; ended_by = user }
    else e

pub data EndResult : Type 0 where
  ended_now : ExamRow → EndResult
  not_found already_ended : EndResult

abbrev end_found :
    List ExamRow → ExamRow → String → Option String → ℕ → ExamPhase → List ExamRow × EndResult
end_found sessions exam id user now ended = (sessions, already_ended)
end_found sessions exam id user now running = (
  map (end_row id user now) sessions,
  ended_now (record exam { ended_at = some now; ended_by = user }),
)
end_found sessions exam id user now scheduled = (
  map (end_row id user now) sessions,
  ended_now (record exam { ended_at = some now; ended_by = user }),
)

unfoldable pub end_exam :
    List ExamRow → String → String → Option String → ℕ → List ExamRow × EndResult
unfolding find_exam
end_exam sessions tenant id user now = elim (find_exam sessions tenant id) [
  | none ↦ (sessions, not_found)
  | some exam ↦ end_found sessions exam id user now (exam_phase exam now)
]

-- What the hub keeps in view: every exam not yet ended, and those ended in the last day.
abbrev in_view : String → ℕ → ExamRow → Bool
in_view tenant now e = e.tenant_id == tenant && ltb now (exam_end e + 86400)

unfoldable pub hub_exams : List ExamRow → String → ℕ → List ExamWindow
unfolding exam_end
hub_exams sessions tenant now =
    map exam_window
      (sort (λ a b. leb a.starts_at b.starts_at) (filter (in_view tenant now) sessions))

pub data ExamEvent : Type 0 where
  start_online start_offline connect disconnect : ExamEvent

pub record EventRow : Type 0 where
  pub exam_id : String
  pub client_id : String
  pub event : ExamEvent
  pub at : ℕ

abbrev pub is_old : ℕ → ExamRow → Bool
is_old now e = ltb (exam_end e + retention_seconds) now

abbrev is_kept : List ExamRow → EventRow → Bool
is_kept old e = not (any (λ row. row.id == e.exam_id) old)

-- The exams and the events that are left, and how many exams went.
unfoldable pub purge_old_exams : List ExamRow → List EventRow → ℕ → List ExamRow × List EventRow × ℕ
unfolding exam_end
purge_old_exams sessions events now =
    let old = filter (is_old now) sessions in
    (filter (λ e. not (is_old now e)) sessions, filter (is_kept old) events, length old)
