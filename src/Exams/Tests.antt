-- ===== src/Exams/Tests.antt =====
-- Exams set up, refused, ended and finished at concrete inputs.
use labkiosk.Shared.{
  ℕ, ◌+◌, ◌-◌, ◌*◌, ◌≤◌, ◌<◌, ◌≡◌, refl, Bool, true, false, Option, none, some, List, [], ◌∷◌, map,
  String, units, arith, length, all, count, nat_eq, string_eq, option_eq, units_comparable, trim,
  units_eq,
}
use labkiosk.Shared.Result.{ok}
use labkiosk.Db.{DeviceRow}
use labkiosk.Json.{Json, whole, text, array, object, nil, cons, field, end as no_more, property}
use labkiosk.Web.{Runtime, safe_http_url, is_host, normalize_domain}
use labkiosk.Exams.{stored_array, exam_window, ExamRow, ExamInput, ExamWindow, exam_end, exam_epoch}
use labkiosk.Exams.Parsing.{
  parse_exam_input, parse_title, own_host, parse_extra_hosts, parse_group_name, parse_start,
  parse_minutes,
}
use labkiosk.Exams.Accepted.{parse_exam_input-bounds, are_sites}
use labkiosk.Exams.Sessions.{
  EventRow, ExamEvent, start_online, connect, disconnect, open_exams, is_open, find_exam,
}
use labkiosk.Exams.Disjoint.{holds_now}
use labkiosk.Exams.Finish.{ExamTables, exam_clients, finish_exam, reset_epoch}
use labkiosk.Exams.Finish.Resets.{finish_exam_resets, reset_device}
use labkiosk.Exams.Blocking.{
  exam_blocking_broadcast, running_exams, first_in_exam, nothing_runs, spared,
  exam_blocking_broadcast_none,
}
use labkiosk.Exams.Board.{ExamWorkstation, exam_workstations, account, opening, settled}
use labkiosk.Exams.Offline.{offline_count, account_counts_offline}
use labkiosk.Exams.Requests.{Request, post, end, purge, serve, post_exam, serve-exclusive}
use labkiosk.Exams.Limit.{open_count-post}

-- A browser's `URL` on the one site of these tests.
abbrev runtime : Runtime
runtime = record {
  to_lower_case = λ s. s;
  parse_url = λ s.
      some (record { protocol = units "https:"; hostname = units "exam.example.org"; href = s });
}

abbrev any_order : String → String → Bool
any_order a b = true

abbrev physics : Json
physics = object (
    field "title" (text "Physics") (
      field "url" (text "https://exam.example.org/") (
        field "hosts" (array (cons (text "cdn.example.org") (cons (text "exam.example.org") nil)))
          (field "groupName" (text "lab") (field "durationMinutes" (whole 60) no_more)))))

abbrev physics_input : ExamInput
physics_input = record {
  title = units "Physics";
  group_name = some "lab";
  url = units "https://exam.example.org/";
  hosts = units "exam.example.org" ∷ units "cdn.example.org" ∷ [];
  starts_at = 1000;
  ends_at = 4600;
}

physics_is_accepted : parse_exam_input runtime physics ("lab" ∷ []) 1000 ≡ ok physics_input
unfolding parse_exam_input parse_title own_host parse_extra_hosts parse_group_name parse_start
    parse_minutes safe_http_url is_host normalize_domain units property trim units_eq
physics_is_accepted = refl

parse_exam_input-bounds_example :
    (1000 ≤ physics_input.starts_at)
    × (physics_input.starts_at ≤ 1000 + 90 * 86400)
    × (physics_input.starts_at + 300 ≤ physics_input.ends_at)
    × (physics_input.ends_at ≤ physics_input.starts_at + 36000)
    × (length physics_input.title ≤ 120)
    × (length physics_input.hosts ≤ 21)
    × (are_sites physics_input.hosts ≡ true)
parse_exam_input-bounds_example =
    parse_exam_input-bounds runtime ("lab" ∷ []) 1000 physics physics_input physics_is_accepted

abbrev lab_row : ExamRow
lab_row = record {
  id = "first";
  tenant_id = "school";
  title = [];
  group_name = some "lab";
  exam_url = [];
  allowed_hosts = stored_array [];
  starts_at = 1000;
  ends_at = 4600;
  ended_at = none;
  finalized_at = none;
  created_by = none;
  ended_by = none;
  created_at = 1000;
}

abbrev device : String → Option String → DeviceRow
device client group = record {
  tenant_id = "school";
  client_id = client;
  group_name = group;
  last_seen = 10;
  broadcast_url = some "https://exam.example.org/";
  broadcast_epoch = 1000999;
}

abbrev tables : ExamTables
tables = record {
  exam_sessions = lab_row ∷ [];
  exam_events = [];
  client_devices = device "a" (some "lab") ∷ device "b" (some "hall") ∷ [];
  tenants = [];
}

abbrev empty : ExamTables
empty = record { exam_sessions = []; exam_events = []; client_devices = []; tenants = [] }

-- The second exam is refused, since it overlaps the first.
abbrev requests : List Request
requests =
    post "school" ("lab" ∷ []) physics none 1000 "first"
    ∷ post "school" ("lab" ∷ []) physics none 1500 "second"
    ∷ end "school" "first" none 2000 2000000 2000
    ∷ post "school" ("lab" ∷ []) physics none 2000 "third"
    ∷ purge 3000
    ∷ []

serve-exclusive_example :
    count
      (holds_now "school" 2500 (some "lab"))
      (serve runtime any_order empty requests).exam_sessions
    ≤ 1
serve-exclusive_example =
    serve-exclusive runtime any_order empty requests "school" (some "lab") 2500 tt

open_count-post_example :
    count
      (is_open "school" 1600)
      (post_exam runtime any_order tables "school"
        ("lab" ∷ [])
        physics
        none
        1500
        "second").0.exam_sessions
    ≤ 50
open_count-post_example =
    open_count-post runtime any_order tables "school" ("lab" ∷ []) physics none 1500 "second"
      "school" 1600 (omega arith) (omega arith)

lab_runs : 2000 < exam_end lab_row
unfolding exam_end
lab_runs = omega arith

first_is_found : find_exam (lab_row ∷ []) "school" "first" ≡ some lab_row
unfolding find_exam
first_is_found = refl

-- What the hub has of the exam.
abbrev lab_window : ExamWindow
lab_window = record {
  id = "first";
  title = [];
  group_name = some "lab";
  url = [];
  hosts = [];
  starts_at = 1000;
  ends_at = 4600;
  cancelled = false;
}

finish_exam_resets_example :
    ((finish_exam any_order tables lab_window 4600000 4600).1 ≡ true)
    × ((finish_exam any_order tables lab_window 4600000 4600).0.client_devices
        ≡ map
            (reset_device any_order tables lab_window 4600000 4600 "school" "lab")
            tables.client_devices)
    × (exam_epoch 1000 < reset_epoch lab_window 4600000)
    × (4600000 ≤ reset_epoch lab_window 4600000)
finish_exam_resets_example =
    finish_exam_resets any_order tables lab_window 4600000 4600 lab_row "lab" refl refl refl refl

-- A broadcast to the hall is let through while the lab has its exam.
hall_only :
    exam_blocking_broadcast (lab_row ∷ []) tables.client_devices "school" ("b" ∷ []) 2000
    ≡ nothing_runs
unfolding exam_blocking_broadcast running_exams open_exams first_in_exam
hall_only = refl

exam_blocking_broadcast_none_example :
    all (spared (lab_row ∷ []) tables.client_devices "school" ("b" ∷ []) 2000) tables.client_devices
    ≡ true
exam_blocking_broadcast_none_example =
    exam_blocking_broadcast_none (lab_row ∷ []) tables.client_devices "school" ("b" ∷ []) 2000
      hall_only

abbrev event : String → ExamEvent → ℕ → EventRow
event client kind at = record { exam_id = "first"; client_id = client; event = kind; at = at }

abbrev changes : List EventRow
changes = event "a" start_online 1000 ∷ event "a" disconnect 1100 ∷ event "a" connect 1150 ∷ []

account_counts_offline_example :
    settled true 2000 (account changes (opening true 1000))
    ≡ offline_count true changes 1000 (2000 - 1000)
account_counts_offline_example =
    account_counts_offline changes true 1000 2000
      (omega arith, (omega arith, (omega arith, omega arith)))

abbrev on_board : ExamWorkstation
on_board = record {
  client_id = "a";
  group_name = some "lab";
  online_at_start = some true;
  disconnections = 1;
  offline_seconds = 50;
}

one_on_board :
    exam_workstations any_order any_order tables.client_devices changes lab_row 2000 ≡ on_board ∷ []
unfolding exam_workstations account exam_clients exam_window exam_end
one_on_board = refl
