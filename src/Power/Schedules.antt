-- ===== src/Power/Schedules.antt =====
-- power.ts `parsePowerScheduleInput` and `powerScheduleConflict`.
use Prim.Native.Nat.{bit_and}
use labkiosk.Shared.{
  ◌%◌, ◌≢◌, sym, ap, ◌∙◌, ℕ, ◌+◌, ◌-◌, ◌≤◌, ◌<◌, ◌≡◌, Bool, not, ◌||◌, min, Option, none, some,
  List, [], ◌∷◌, String, ◌==◌, nat_eq, string_eq, option_eq, ltb, length, units, arith,
  if◌then◌else◌,
}
use labkiosk.Shared.Result.{Outcome, ok, throw, ◌>>=◌, ◌>>◌, throw_if, or_throw, >>=-ok}
use mathlib.Core.Path.{subst}
use labkiosk.Json.{Json, property, is_blank, undefined, text, object}
use labkiosk.Power.Clock.{parse_clock_time, parse_clock_time-bound}
use labkiosk.Power.Days.{
  DaysError, DaysResult, days_mask, days_error, days_to_mask, mask_to_days, days_of_list,
}
use labkiosk.Power.Days.Named.{days_to_mask-bound}

abbrev pub min_on_off_gap_minutes : ℕ
min_on_off_gap_minutes = 15

pub record PowerScheduleInput : Type 0 where
  pub group_id : Option String
  pub days : ℕ
  pub off_minute : ℕ
  pub on_minute : Option ℕ

pub data ScheduleError : Type 0 where
  not_an_object bad_off bad_on too_close bad_group : ScheduleError
  days : DaysError → ScheduleError

abbrev days_or_throw : DaysResult → Outcome ScheduleError ℕ
days_or_throw (days_mask mask) = ok mask
days_or_throw (days_error e) = throw (days e)

-- `Math.abs(on - off)`, on numbers that stop at 0.
abbrev pub minutes_apart : ℕ → ℕ → ℕ
minutes_apart a b = (a - b) + (b - a)

-- The least time between the two, either way round the clock.
abbrev pub clock_gap : ℕ → ℕ → ℕ
clock_gap on off = let gap = minutes_apart on off in min gap (1440 - gap)

parse_on_minute : Json → ℕ → Outcome ScheduleError (Option ℕ)
parse_on_minute value off = if is_blank value then ok none else do
  on ← or_throw (parse_clock_time value) bad_on
  throw_if (ltb (clock_gap on off) min_on_off_gap_minutes) too_close
  ok (some on)

parse_group_text : Json → Outcome ScheduleError (Option String)
parse_group_text (text s) = if ltb 64 (length (units s)) then throw bad_group else ok (some s)
parse_group_text _ = throw bad_group

parse_group_id : Json → Outcome ScheduleError (Option String)
unfolding parse_group_text
parse_group_id value = if is_blank value then ok none else parse_group_text value

unfoldable pub parse_power_schedule_input : Json → Outcome ScheduleError PowerScheduleInput
unfolding parse_on_minute parse_group_id
parse_power_schedule_input (object body) = do
  mask ← days_or_throw (days_to_mask (property body "days"))
  off ← or_throw (parse_clock_time (property body "off")) bad_off
  on ← parse_on_minute (property body "on") off
  group ← parse_group_id (property body "groupId")
  ok (record { group_id = group; days = mask; off_minute = off; on_minute = on })
parse_power_schedule_input _ = throw not_an_object

-- A schedule as the console and the conflict check see it.
pub record PowerSchedule : Type 0 where
  pub id : String
  pub group_id : Option String
  pub group_name : Option String
  pub days : List ℕ
  pub off : List ℕ
  pub on : Option (List ℕ)
  pub updated_at : ℕ

pub record Conflict : Type 0 where
  pub group_name : Option String
  pub shared_days : List ℕ

abbrev is_other_group : PowerScheduleInput → Option String → PowerSchedule → Bool
is_other_group candidate self_id other =
    self_id == some other.id || not (other.group_id == candidate.group_id)

unfoldable pub power_schedule_conflict :
    List PowerSchedule → PowerScheduleInput → Option String → Option Conflict
power_schedule_conflict [] candidate self_id = none
power_schedule_conflict (other ∷ rest) candidate self_id =
    let later = power_schedule_conflict rest candidate self_id in
    let shared = bit_and candidate.days (days_of_list 0 other.days) in
    if is_other_group candidate self_id other
    then later
    else if shared == 0
    then later
    else some (record { group_name = other.group_name; shared_days = mask_to_days shared })

days_or_throw-ok : (r : DaysResult) (mask : ℕ) → days_or_throw r ≡ ok mask → r ≡ days_mask mask
days_or_throw-ok (days_mask m) mask h = cc
days_or_throw-ok (days_error e) mask h = cc

or_throw-ok {ℓ} : {E A : Type ℓ} (o : Option A) (e : E) (a : A) → or_throw o e ≡ ok a → o ≡ some a
or_throw-ok none e a h = cc
or_throw-ok (some b) e a h = cc

-- What is known of the minute at which an accepted schedule switches on.
abbrev OnMinute : ℕ → Option ℕ → Type 0
OnMinute off none = Unit
OnMinute off (some on) = (on < 1440) × (15 ≤ clock_gap on off)

parse_on_minute-OnMinute :
    (value : Json) (off : ℕ) (on : Option ℕ) → parse_on_minute value off ≡ ok on → OnMinute off on
unfolding parse_on_minute
parse_on_minute-OnMinute value off none h = tt
parse_on_minute-OnMinute value off (some on) h = ground (arith, parse_clock_time-bound value on)

clock_gap-round :
    (on off k : ℕ)
    → on < 1440
    → off < 1440
    → k < 15
    → 15 ≤ clock_gap on off
    → ((on + k) % 1440 ≢ off) × ((off + k) % 1440 ≢ on)
clock_gap-round on off k h1 h2 h3 h = (λ e. omega arith, λ e. omega arith)

-- The switch-on and switch-off of an accepted schedule are minutes of the day, less than 15 minutes
-- after either of them the clock never shows the other, and its days are some of the seven.
pub parse_power_schedule_input-bounds :
    (body : Json) (input : PowerScheduleInput) (on k : ℕ)
    → parse_power_schedule_input body ≡ ok input
    → input.on_minute ≡ some on
    → k < 15
    → (input.days < 128)
      × (input.off_minute < 1440)
      × (on < 1440)
      × ((on + k) % 1440 ≢ input.off_minute)
      × ((input.off_minute + k) % 1440 ≢ on)
unfolding parse_power_schedule_input
parse_power_schedule_input-bounds (object body) input on k h e small =
    let (mask, at_days, h1) =
      >>=-ok (days_or_throw (days_to_mask (property body "days"))) _ input h in
    let (off, at_off, h2) =
      >>=-ok (or_throw (parse_clock_time (property body "off")) bad_off) _ input h1 in
    let (on', at_on, h3) = >>=-ok (parse_on_minute (property body "on") off) _ input h2 in
    let (group, at_group, h4) = >>=-ok (parse_group_id (property body "groupId")) _ input h3 in
    let clock = parse_on_minute-OnMinute (property body "on") off on' at_on in
    let mask_bound =
      days_to_mask-bound (property body "days") mask (days_or_throw-ok _ mask at_days) in
    let off_bound =
      parse_clock_time-bound (property body "off") off (or_throw-ok _ bad_off off at_off) in
    let off_is : input.off_minute ≡ off = ground arith in
    let on_is : on' ≡ some on = ground arith in
    let days_are : input.days ≡ mask = ground arith in
    let (on_bound, gap) = subst (OnMinute off) on_is clock in
    let (after_on, after_off) = clock_gap-round on off k on_bound off_bound small gap in
    (
      omega arith,
      omega arith,
      on_bound,
      λ same. after_on (same ∙ off_is),
      λ same. after_off (ap (λ m. (m + k) % 1440) (sym off_is) ∙ same),
    )
parse_power_schedule_input-bounds undefined input on k h e small = cc
parse_power_schedule_input-bounds _ input on k h e small = cc

pub parse_power_schedule_input-days :
    (body : Json) (input : PowerScheduleInput)
    → parse_power_schedule_input body ≡ ok input
    → input.days < 128
unfolding parse_power_schedule_input
parse_power_schedule_input-days (object body) input h =
    let (mask, at_days, h1) =
      >>=-ok (days_or_throw (days_to_mask (property body "days"))) _ input h in
    let (off, at_off, h2) =
      >>=-ok (or_throw (parse_clock_time (property body "off")) bad_off) _ input h1 in
    let (on, at_on, h3) = >>=-ok (parse_on_minute (property body "on") off) _ input h2 in
    let (group, at_group, h4) = >>=-ok (parse_group_id (property body "groupId")) _ input h3 in
    let bound = days_to_mask-bound (property body "days") mask (days_or_throw-ok _ mask at_days) in
    ground arith
parse_power_schedule_input-days undefined input h = cc
parse_power_schedule_input-days _ input h = cc
