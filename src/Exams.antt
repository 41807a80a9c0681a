-- ===== src/Exams.antt =====
-- cloudflare-control/src/exams.ts: the rows of exams, their windows and their phases.
mod Parsing
mod Sessions
mod Disjoint
mod Accepted
mod Phases
mod Blocking
mod Board
mod Offline
mod Requests
mod Limit
mod Tests
mod Finish
use labkiosk.Web.{is_host}
use labkiosk.Shared.{
  ℕ, ◌+◌, ◌*◌, ◌≤◌, ◌≡◌, Bool, true, false, ◌&&◌, ◌||◌, min, max, Option, none, some, List, [], ◌∷◌,
  String, ◌==◌, option_eq, string_eq, leb, ltb, filter, if◌then◌else◌, arith,
}

-- A value in an array of JSON: a string, or what is not one.
pub data StoredItem : Type 0 where
  stored_text : List ℕ → StoredItem
  stored_value : StoredItem

-- A text column, by what `JSON.parse` makes of it: an array, another value, or an error.
pub data Stored : Type 0 where
  stored_array : List StoredItem → Stored
  not_an_array unreadable : Stored

-- A row of `exam_sessions`.
pub record ExamRow : Type 0 where
  pub id : String
  pub tenant_id : String
  pub title : List ℕ
  pub group_name : Option String
  pub exam_url : List ℕ
  pub allowed_hosts : Stored
  pub starts_at : ℕ
  pub ends_at : ℕ
  pub ended_at : Option ℕ
  pub finalized_at : Option ℕ
  pub created_by : Option String
  pub ended_by : Option String
  pub created_at : ℕ

pub data ExamPhase : Type 0 where
  scheduled running ended : ExamPhase

pub record ExamInput : Type 0 where
  pub title : List ℕ
  pub group_name : Option String
  pub url : List ℕ
  pub hosts : List (List ℕ)
  pub starts_at : ℕ
  pub ends_at : ℕ

pub record ExamWindow : Type 0 where
  pub id : String
  pub title : List ℕ
  pub group_name : Option String
  pub url : List ℕ
  pub hosts : List (List ℕ)
  pub starts_at : ℕ
  pub ends_at : ℕ
  pub cancelled : Bool

abbrev earlier : Option ℕ → ℕ → ℕ
earlier none ends_at = ends_at
earlier (some ended_at) ends_at = min ended_at ends_at

unfoldable pub exam_end : ExamRow → ℕ
exam_end row = earlier row.ended_at row.ends_at

unfoldable pub exam_phase : ExamRow → ℕ → ExamPhase
unfolding exam_end
exam_phase row now =
    if leb (exam_end row) now then ended else if leb row.starts_at now then running else scheduled

abbrev with_host : StoredItem → List (List ℕ) → List (List ℕ)
with_host stored_value hosts = hosts
with_host (stored_text host) hosts = if is_host host then host ∷ hosts else hosts

abbrev hosts_among : List StoredItem → List (List ℕ)
hosts_among [] = []
hosts_among (item ∷ items) = with_host item (hosts_among items)

abbrev pub parse_hosts : Stored → List (List ℕ)
parse_hosts (stored_array items) = hosts_among items
parse_hosts not_an_array = []
parse_hosts unreadable = []

abbrev ended_before : Option ℕ → ℕ → Bool
ended_before none start = false
ended_before (some ended_at) start = ltb ended_at start

unfoldable pub exam_window : ExamRow → ExamWindow
unfolding exam_end
exam_window row = record {
  id = row.id;
  title = row.title;
  group_name = row.group_name;
  url = row.exam_url;
  hosts = parse_hosts row.allowed_hosts;
  starts_at = row.starts_at;
  ends_at = exam_end row;
  cancelled = ended_before row.ended_at row.starts_at;
}

abbrev pub exam_epoch : ℕ → ℕ
exam_epoch starts_at = starts_at * 1000 + 999

-- `exam.groupName === null || exam.groupName === groupName`, of a workstation's group or none.
abbrev pub exam_covers : Option String → Option String → Bool
exam_covers none group = true
exam_covers (some name) group = some name == group
