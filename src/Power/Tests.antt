-- ===== src/Power/Tests.antt =====
-- Schedules saved, refused and followed at concrete inputs.
use labkiosk.Shared.{
  ◌+◌, ◌%◌, ◌≢◌, ◌↔◌, ℕ, ◌<◌, ◌≤◌, ◌≡◌, refl, false, Option, none, some, List, [], ◌∷◌, String,
  units, arith, if◌then◌else◌, nat_eq, string_eq, option_eq,
}
use labkiosk.Shared.Result.{ok}
use labkiosk.Json.{Json, Items, whole, text, array, object, nil, cons, field, end, property}
use labkiosk.Power.Clock.{
  parse_time_units, format_clock_time, parse_time_units_iff, parse_clock_time,
}
use labkiosk.Power.Days.{days_to_mask, covers, count_items, mask_to_days, days_of_list}
use labkiosk.Power.Days.Named.{days_to_mask_sound, times, AreDays}
use labkiosk.Power.Schedules.{
  PowerScheduleInput, parse_power_schedule_input, parse_power_schedule_input-bounds,
  power_schedule_conflict,
}
use labkiosk.Power.Saving.{
  ScheduleRow, post_power_schedule, store_schedule, save_power_schedule, list_power_schedules,
  requested_id,
}
use labkiosk.Power.Exclusive.{IsExclusive}
use labkiosk.Power.Requests.{
  Request, post, serve, serve-IsExclusive, schedule_count, schedule_count-post,
}
use labkiosk.Power.Week.{PowerRule, effective_power}
use labkiosk.Power.Followed.{told, effective_power-own, effective_power-everyone}

parse_time_units_iff_example :
    (parse_time_units (units "23:59") ≡ some 1439)
    ↔ ((1439 < 1440) × (format_clock_time 1439 ≡ units "23:59"))
parse_time_units_iff_example = parse_time_units_iff (units "23:59") 1439

abbrev weekdays : Items
weekdays = cons (whole 1) (cons (whole 2) (cons (whole 5) nil))

days_to_mask_sound_example :
    (38 < 128)
    × AreDays weekdays
    × ((d : ℕ) → d < 7 → times d weekdays ≡ (if covers 38 d then 1 else 0))
    × (1 ≤ count_items weekdays)
    × (count_items weekdays ≤ 7)
unfolding days_to_mask
days_to_mask_sound_example = days_to_mask_sound weekdays 38 refl

-- Monday, Tuesday and Friday, off at 19:30 and on at 07:05, for every workstation.
abbrev evening : Json
evening =
    object
      (field "days" (array weekdays) (field "off" (text "19:30") (field "on" (text "07:05") end)))

abbrev evening_input : PowerScheduleInput
evening_input = record { group_id = none; days = 38; off_minute = 1170; on_minute = some 425 }

evening_parsed : parse_power_schedule_input evening ≡ ok evening_input
unfolding parse_power_schedule_input property days_to_mask parse_clock_time units
evening_parsed = refl

parse_power_schedule_input-bounds_example :
    (38 < 128)
    × (1170 < 1440)
    × (425 < 1440)
    × ((425 + 14) % 1440 ≢ 1170)
    × ((1170 + 14) % 1440 ≢ 425)
parse_power_schedule_input-bounds_example =
    parse_power_schedule_input-bounds evening evening_input 425 14 evening_parsed refl (omega arith)

-- The second request collides on Monday, Tuesday and Friday.
abbrev two_posts : List Request
two_posts = post "school" [] evening 1000 "first" ∷ post "school" [] evening 1001 "second" ∷ []

abbrev first_row : ScheduleRow
first_row = record {
  id = "first";
  tenant_id = "school";
  group_id = none;
  days = 38;
  off_minute = 1170;
  on_minute = some 425;
  created_at = 1000;
  updated_at = 1000;
}

two_posts_keep_one : serve [] two_posts ≡ first_row ∷ []
unfolding serve post_power_schedule store_schedule save_power_schedule list_power_schedules
    power_schedule_conflict parse_power_schedule_input property days_to_mask parse_clock_time units
    requested_id mask_to_days days_of_list
two_posts_keep_one = refl

serve-IsExclusive_example : IsExclusive (serve [] two_posts)
serve-IsExclusive_example = serve-IsExclusive [] two_posts tt

schedule_count-post_example :
    schedule_count "school"
      (post_power_schedule [] (first_row ∷ []) "school" evening 1001 "second").0
    ≤ 50
schedule_count-post_example =
    schedule_count-post [] (first_row ∷ []) "school" evening 1001 "second" "school" (omega arith)

abbrev rule : Option String → ℕ → ℕ → PowerRule
rule group days off = record {
  group_name = group;
  orphaned = false;
  days = days;
  off = off;
  on = none;
}

-- Monday for every workstation, Monday and Tuesday for the lab.
abbrev everyone : PowerRule
everyone = rule none 2 1200

abbrev lab : PowerRule
lab = rule (some "lab") 6 1080

effective_power-own_example :
    told (effective_power (everyone ∷ lab ∷ []) (some "lab")) 1
    ≡ some (record { off = 1080; on = none })
effective_power-own_example =
    effective_power-own (everyone ∷ []) [] lab 1 (omega arith, (refl, tt), (omega arith, tt, tt))
      (omega arith) "lab" refl refl

effective_power-everyone_example :
    told (effective_power (everyone ∷ lab ∷ []) (some "hall")) 1
    ≡ some (record { off = 1200; on = none })
effective_power-everyone_example =
    effective_power-everyone [] (lab ∷ []) everyone 1
      (omega arith, (refl, tt), (omega arith, tt, tt)) (omega arith) (some "hall") refl refl
