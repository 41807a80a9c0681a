-- ===== src/Exams/Board.antt =====
-- exams.ts `examWorkstations`: each covered workstation's time offline and disconnections so far.
use labkiosk.Shared.{
  ℕ, suc, ◌+◌, ◌-◌, Bool, true, false, not, ◌&&◌, min, Option, none, some, List, [], ◌∷◌, ◌++◌, map,
  String, ◌==◌, string_eq, leb, find, filter, any, sort, if◌then◌else◌,
}
use labkiosk.Db.{DeviceRow}
use labkiosk.Exams.{ExamRow, exam_end, exam_window}
use labkiosk.Exams.Sessions.{EventRow, ExamEvent, start_online, start_offline, connect, disconnect}
use labkiosk.Exams.Finish.{exam_clients}

pub record ExamWorkstation : Type 0 where
  pub client_id : String
  pub group_name : Option String
  pub online_at_start : Option Bool
  pub disconnections : ℕ
  pub offline_seconds : ℕ

-- The variables of the loop over a workstation's events.
pub record Account : Type 0 where
  pub online : Bool
  pub offline_since : ℕ
  pub offline_seconds : ℕ
  pub disconnections : ℕ

-- `Math.max(0, a - b)` is `a - b`.
abbrev pub round_of : ExamEvent → ℕ → Account → Account
round_of connect at a =
    if a.online
    then a
    else record a { online = true; offline_seconds = a.offline_seconds + (at - a.offline_since) }
round_of disconnect at a =
    if a.online
    then record a { online = false; offline_since = at; disconnections = suc a.disconnections }
    else a
round_of start_online at a = a
round_of start_offline at a = a

unfoldable pub account : List EventRow → Account → Account
account [] a = a
account (e ∷ es) a = account es (round_of e.event e.at a)

abbrev is_snapshot : ExamEvent → Bool
is_snapshot start_online = true
is_snapshot start_offline = true
is_snapshot connect = false
is_snapshot disconnect = false

abbrev was_online : ExamEvent → Bool
was_online start_online = true
was_online _ = false

abbrev online_at_start_of : Option EventRow → Option Bool
online_at_start_of none = none
online_at_start_of (some e) = some (was_online e.event)

abbrev is_true : Option Bool → Bool
is_true none = false
is_true (some b) = b

abbrev pub opening : Bool → ℕ → Account
opening online starts_at = record {
  online = online;
  offline_since = starts_at;
  offline_seconds = 0;
  disconnections = 0;
}

-- `if (started && !online) offlineSeconds += …`, and `started ? offlineSeconds : 0`.
abbrev pub settled : Bool → ℕ → Account → ℕ
settled started until a =
    if started
    then (if a.online then a.offline_seconds else a.offline_seconds + (until - a.offline_since))
    else 0

abbrev workstation_of : List EventRow → Bool → ℕ → ℕ → String × Option String → ExamWorkstation
workstation_of events started starts_at until (client, group) =
    let own = filter (λ e. e.client_id == client) events in
    let online_at_start = online_at_start_of (find (λ e. is_snapshot e.event) own) in
    let a = account own (opening (is_true online_at_start) starts_at) in
    record {
      client_id = client;
      group_name = group;
      online_at_start = online_at_start;
      disconnections = a.disconnections;
      offline_seconds = settled started until a;
    }

-- `groups.set` for the workstations of events that the registry has no more.
abbrev with_event_clients :
    List (String × Option String) → Option String → List EventRow → List (String × Option String)
with_event_clients groups group [] = groups
with_event_clients groups group (e ∷ es) =
    if any (λ g. g.0 == e.client_id) groups
    then with_event_clients groups group es
    else with_event_clients (groups ++ (e.client_id, group) ∷ []) group es

-- `new Map(pairs)`: the first place of a key, with its last value.
abbrev set_group :
    String → Option String → List (String × Option String) → List (String × Option String)
set_group client group [] = (client, group) ∷ []
set_group client group (g ∷ gs) =
    if g.0 == client then (client, group) ∷ gs else g ∷ set_group client group gs

abbrev groups_of : List DeviceRow → List (String × Option String) → List (String × Option String)
groups_of [] groups = groups
groups_of (d ∷ ds) groups = groups_of ds (set_group d.client_id d.group_name groups)

module _ (sql_le locale_le : String → String → Bool) where
  unfoldable pub exam_workstations :
      List DeviceRow → List EventRow → ExamRow → ℕ → List ExamWorkstation
  unfolding account exam_clients exam_window exam_end
  exam_workstations devices exam_events exam now =
      let window = exam_window exam in
      let clients = exam_clients sql_le devices exam.tenant_id exam.group_name in
      let events = sort (λ a b. leb a.at b.at) (filter (λ e. e.exam_id == exam.id) exam_events) in
      let started = leb window.starts_at now && not window.cancelled in
      let groups = with_event_clients (groups_of clients []) exam.group_name events in
      map (workstation_of events started window.starts_at (min window.ends_at now))
        (sort (λ a b. locale_le a.0 b.0) groups)
