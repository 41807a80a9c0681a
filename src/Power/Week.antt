-- ===== src/Power/Week.antt =====
-- power.ts `loadPowerRules` and `effectivePower`: the week that one workstation follows.
use Prim.Native.Nat.{bit_and}
use labkiosk.Shared.{
  ℕ, zero, suc, ◌<◌, ◌≡◌, Bool, true, false, not, ◌&&◌, Option, none, some, List, [], ◌∷◌, ◌++◌,
  map, String, ◌==◌, nat_eq, string_eq, option_eq, option_beq_iff, filter, find, any, is_some, All,
  arith, if◌then◌else◌,
}
use labkiosk.Db.{DeviceRow}
use labkiosk.Power.Days.{covers, week_days}
use labkiosk.Power.Days.Bits.{bit_and-shared}
use labkiosk.Power.Saving.{ScheduleRow, GroupRow, group_name_of}

pub record PowerDay : Type 0 where
  pub off : ℕ
  pub on : Option ℕ

pub record PowerRule : Type 0 where
  pub group_name : Option String
  pub orphaned : Bool
  pub days : ℕ
  pub off : ℕ
  pub on : Option ℕ

-- A nullable text, tested for truth.
abbrev pub has_text : Option String → Bool
has_text none = false
has_text (some s) = not (s == "")

unfoldable pub rule_of : List GroupRow → ScheduleRow → PowerRule
rule_of groups row = record {
  group_name = if has_text row.group_id then group_name_of groups row else none;
  orphaned = has_text row.group_id && not (has_text (group_name_of groups row));
  days = row.days;
  off = row.off_minute;
  on = row.on_minute;
}

-- The workstations that are in a group, each with its group's name.
unfoldable pub grouped_devices : List DeviceRow → String → List (String × String)
grouped_devices [] tenant = []
grouped_devices (d ∷ ds) tenant =
    let rest = grouped_devices ds tenant in
    if d.tenant_id == tenant
    then (elim d.group_name [ none ↦ rest | some g ↦ (d.client_id, g) ∷ rest ])
    else rest

unfoldable pub load_power_rules :
    List GroupRow
    → List ScheduleRow
    → List DeviceRow
    → String
    → List PowerRule × List (String × String)
unfolding rule_of grouped_devices
load_power_rules groups rows devices tenant =
    let rules = map (rule_of groups) (filter (λ r. r.tenant_id == tenant) rows) in
    (rules, if any (λ r. has_text r.group_name) rules then grouped_devices devices tenant else [])

abbrev pub applies : Option String → ℕ → PowerRule → Bool
applies group day r = not r.orphaned && r.group_name == group && covers r.days day

abbrev pub own_rule : List PowerRule → Option String → ℕ → Option PowerRule
own_rule rules group day = if has_text group then find (applies group day) rules else none

abbrev day_of : Option PowerRule → Option PowerDay
day_of none = none
day_of (some r) = some (record { off = r.off; on = r.on })

abbrev or_else : Option PowerRule → Option PowerRule → Option PowerRule
or_else (some r) s = some r
or_else none s = s

-- One round of the loop over the days.
unfoldable pub power_day : List PowerRule → Option String → ℕ → Option PowerDay
power_day rules group day =
    day_of (or_else (own_rule rules group day) (find (applies none day) rules))

unfoldable pub effective_power : List PowerRule → Option String → Option (List (Option PowerDay))
unfolding power_day
effective_power rules group =
    let week = map (power_day rules group) week_days in if any is_some week then some week else none

-- Two rules for the same workstations that share a day.
abbrev pub rules_clash : PowerRule → PowerRule → Bool
rules_clash a b =
    a.group_name == b.group_name
    && not a.orphaned
    && not b.orphaned
    && not (bit_and a.days b.days == 0)

abbrev pub AreExclusive : List PowerRule → Type 0
AreExclusive [] = Unit
AreExclusive (r ∷ rs) = (r.days < 128) × All (λ s. rules_clash r s ≡ false) rs × AreExclusive rs

any_week : (f : ℕ → Bool) (d : ℕ) → d < 7 → f d ≡ true → any f week_days ≡ true
any_week f zero h e = ground arith
any_week f (suc zero) h e = ground arith
any_week f (suc (suc zero)) h e = ground arith
any_week f (suc (suc (suc zero))) h e = ground arith
any_week f (suc (suc (suc (suc zero)))) h e = ground arith
any_week f (suc (suc (suc (suc (suc zero))))) h e = ground arith
any_week f (suc (suc (suc (suc (suc (suc zero)))))) h e = ground arith
any_week f (suc (suc (suc (suc (suc (suc (suc d))))))) h e = absurd (omega arith)

common_day :
    (a b d : ℕ)
    → a < 128
    → b < 128
    → d < 7
    → covers a d ≡ true
    → covers b d ≡ true
    → (bit_and a b == 0) ≡ false
common_day a b d h k l p q =
    let shared = any_week (λ x. covers a x && covers b x) d l (ground arith) in
    ground (arith, bit_and-shared a b h k)

-- Of rules that do not clash, two that apply to the same workstations on a day are not apart.
applies_twice :
    (group : Option String) (d : ℕ) (a b : PowerRule)
    → d < 7
    → a.days < 128
    → b.days < 128
    → applies group d a ≡ true
    → applies group d b ≡ true
    → rules_clash a b ≡ true
applies_twice group d a b l h k p q = ground (
  arith,
  common_day a.days b.days d h k l,
  option_beq_iff a.group_name group,
  option_beq_iff b.group_name group,
  option_beq_iff a.group_name b.group_name,
)

All-at {ℓ κ} : {A : Type ℓ} (P : A → Type κ) (xs ys : List A) (r : A) → All P (xs ++ r ∷ ys) → P r
All-at P [] ys r (h, hs) = h
All-at P (x ∷ xs) ys r (h, hs) = All-at P xs ys r hs

days_at : (xs ys : List PowerRule) (r : PowerRule) → AreExclusive (xs ++ r ∷ ys) → r.days < 128
days_at [] ys r x = x.0
days_at (s ∷ xs) ys r (_, _, x) = days_at xs ys r x

-- A rule that applies is the one that is found, wherever it stands.
pub find-applies :
    (xs ys : List PowerRule) (r : PowerRule) (group : Option String) (d : ℕ)
    → AreExclusive (xs ++ r ∷ ys)
    → d < 7
    → applies group d r ≡ true
    → find (applies group d) (xs ++ r ∷ ys) ≡ some r
find-applies [] ys r group d x l h = rw h
find-applies (s ∷ xs) ys r group d (low, apart, x) l h =
    let rest = find-applies xs ys r group d x l h in
    let away = All-at (λ t. rules_clash s t ≡ false) xs ys r apart in
    let twice = applies_twice group d s r l low (days_at xs ys r x) in ground (arith, twice)
