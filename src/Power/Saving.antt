-- ===== src/Power/Saving.antt =====
-- power.ts `listPowerSchedules` (without its order of display), `savePowerSchedule`,
-- `deletePowerSchedule`, and the route of index.ts that stores a schedule.
use labkiosk.Shared.{
  ℕ, ◌*◌, Bool, false, not, ◌&&◌, Option, none, some, List, [], ◌∷◌, ◌++◌, map, String, ◌==◌,
  nat_eq, string_eq, option_eq, leb, length, filter, any, is_none, if◌then◌else◌,
}
use labkiosk.Shared.Result.{ok, throw}
use labkiosk.Json.{Json, property, text, object}
use labkiosk.Power.Clock.{format_clock_time}
use labkiosk.Power.Days.{mask_to_days}
use labkiosk.Power.Schedules.{
  PowerScheduleInput, PowerSchedule, ScheduleError, Conflict, parse_power_schedule_input,
  power_schedule_conflict,
}

pub record ScheduleRow : Type 0 where
  pub id : String
  pub tenant_id : String
  pub group_id : Option String
  pub days : ℕ
  pub off_minute : ℕ
  pub on_minute : Option ℕ
  pub created_at : ℕ
  pub updated_at : ℕ

pub record GroupRow : Type 0 where
  pub id : String
  pub tenant_id : String
  pub name : String

-- `LEFT JOIN workstation_groups g ON g.id = s.group_id AND g.tenant_id = s.tenant_id`
unfoldable pub group_name_of : List GroupRow → ScheduleRow → Option String
group_name_of [] row = none
group_name_of (g ∷ gs) row =
    if row.group_id == some g.id && g.tenant_id == row.tenant_id
    then some g.name
    else group_name_of gs row

abbrev format_on : Option ℕ → Option (List ℕ)
format_on none = none
format_on (some minute) = some (format_clock_time minute)

unfoldable pub schedule_of : List GroupRow → ScheduleRow → PowerSchedule
schedule_of groups row = record {
  id = row.id;
  group_id = row.group_id;
  group_name = group_name_of groups row;
  days = mask_to_days row.days;
  off = format_clock_time row.off_minute;
  on = format_on row.on_minute;
  updated_at = row.updated_at * 1000;
}

unfoldable pub list_power_schedules : List GroupRow → List ScheduleRow → String → List PowerSchedule
unfolding schedule_of
list_power_schedules groups rows tenant =
    map (schedule_of groups) (filter (λ r. r.tenant_id == tenant) rows)

abbrev pub is_schedule : String → String → ScheduleRow → Bool
is_schedule tenant id r = r.id == id && r.tenant_id == tenant

abbrev pub update_row : String → String → PowerScheduleInput → ℕ → ScheduleRow → ScheduleRow
update_row tenant id input now r =
    if is_schedule tenant id r
    then record r {
      group_id = input.group_id;
      days = input.days;
      off_minute = input.off_minute;
      on_minute = input.on_minute;
      updated_at = now;
    }
    else r

abbrev pub new_row : String → String → PowerScheduleInput → ℕ → ScheduleRow
new_row tenant id input now = record {
  id = id;
  tenant_id = tenant;
  group_id = input.group_id;
  days = input.days;
  off_minute = input.off_minute;
  on_minute = input.on_minute;
  created_at = now;
  updated_at = now;
}

-- `key_taken` stands for the exception of an INSERT whose primary key is in the table.
pub data SaveResult : Type 0 where
  written : String → SaveResult
  no_row key_taken : SaveResult

-- `new_id` is the value of `crypto.randomUUID()`.
unfoldable pub save_power_schedule :
    List ScheduleRow
    → String
    → PowerScheduleInput
    → ℕ
    → String
    → Option String
    → List ScheduleRow × SaveResult
save_power_schedule rows tenant input now new_id (some id) =
    if any (is_schedule tenant id) rows
    then (map (update_row tenant id input now) rows, written id)
    else (rows, no_row)
save_power_schedule rows tenant input now new_id none =
    if any (λ r. r.id == new_id) rows
    then (rows, key_taken)
    else (rows ++ new_row tenant new_id input now ∷ [], written new_id)

unfoldable pub delete_power_schedule : List ScheduleRow → String → String → List ScheduleRow × Bool
delete_power_schedule rows tenant id =
    (filter (λ r. not (is_schedule tenant id r)) rows, any (is_schedule tenant id) rows)

abbrev pub max_power_schedules : ℕ
max_power_schedules = 50

pub data SaveReply : Type 0 where
  saved : String → SaveReply
  bad_request : ScheduleError → SaveReply
  group_not_found schedule_not_found too_many server_error : SaveReply
  conflicts : Conflict → SaveReply

-- `typeof body?.id === "string" && body.id ? body.id : undefined`
text_id : Json → Option String
text_id (text s) = if s == "" then none else some s
text_id _ = none

unfoldable pub requested_id : Json → Option String
unfolding text_id
requested_id (object body) = text_id (property body "id")
requested_id _ = none

-- `input.groupId && !groups.find((g) => g.id === input.groupId)`
abbrev pub group_is_missing : List GroupRow → String → Option String → Bool
group_is_missing groups tenant none = false
group_is_missing groups tenant (some group) =
    not (any (λ g. g.tenant_id == tenant && g.id == group) groups)

abbrev pub schedule_is_missing : List PowerSchedule → Option String → Bool
schedule_is_missing existing none = false
schedule_is_missing existing (some id) = not (any (λ s. s.id == id) existing)

abbrev pub reply_of : List ScheduleRow × SaveResult → List ScheduleRow × SaveReply
reply_of (rows, written id) = (rows, saved id)
reply_of (rows, no_row) = (rows, schedule_not_found)
reply_of (rows, key_taken) = (rows, server_error)

-- What the route does once the input is validated.
unfoldable pub store_schedule :
    List GroupRow
    → List ScheduleRow
    → String
    → PowerScheduleInput
    → Option String
    → ℕ
    → String
    → List ScheduleRow × SaveReply
store_schedule groups rows tenant input id now new_id =
    let existing = list_power_schedules groups rows tenant in
    if group_is_missing groups tenant input.group_id
    then (rows, group_not_found)
    else if schedule_is_missing existing id
    then (rows, schedule_not_found)
    else if is_none id && leb max_power_schedules (length existing)
    then (rows, too_many)
    else elim (power_schedule_conflict existing input id) [
      | some conflict ↦ (rows, conflicts conflict)
      | none ↦ reply_of (save_power_schedule rows tenant input now new_id id)
    ]

-- POST /api/power-schedules, after the permission check. A body that is not JSON, and a store that
-- fails between the reads and the write, are not modelled.
unfoldable pub post_power_schedule :
    List GroupRow → List ScheduleRow → String → Json → ℕ → String → List ScheduleRow × SaveReply
post_power_schedule groups rows tenant body now new_id = elim (parse_power_schedule_input body) [
  | ok input ↦ store_schedule groups rows tenant input (requested_id body) now new_id
  | throw e ↦ (rows, bad_request e)
]
