-- ===== src/Power/Days.antt =====
-- power.ts `daysToMask` and `maskToDays`: days of the week as the bits of a number, 0 for Sunday.
pub mod Bits
pub mod Named
use Prim.Native.Nat.{bit_and, bit_or}
use labkiosk.Shared.{
  ℕ, zero, suc, ◌+◌, ◌^◌, ◌≤◌, ◌<◌, ◌≡◌, refl, Bool, true, false, not, ◌&&◌, ◌||◌, List, [], ◌∷◌,
  ◌==◌, nat_eq, nat_beq_iff, leb, ltb, filter, any, arith, if◌then◌else◌, Bool-cases, inl, inr, ap,
  leb→le, leb_false→lt, ltb→lt,
}
use labkiosk.Json.{Json, Items, undefined, whole, array, nil, cons}

-- `mask & (1 << day)`, tested for truth.
abbrev pub covers : ℕ → ℕ → Bool
covers mask day = not (bit_and mask (2 ^ day) == 0)

abbrev pub week_days : List ℕ
week_days = 0 ∷ 1 ∷ 2 ∷ 3 ∷ 4 ∷ 5 ∷ 6 ∷ []

unfoldable pub mask_to_days : ℕ → List ℕ
mask_to_days mask = filter (covers mask) week_days

pub data DaysError : Type 0 where
  bad_days : DaysError
  listed_twice : ℕ → DaysError

pub data DaysResult : Type 0 where
  days_mask : ℕ → DaysResult
  days_error : DaysError → DaysResult

abbrev pub count_items : Items → ℕ
count_items nil = 0
count_items (cons v vs) = suc (count_items vs)

-- One round of the loop: the mask goes on, or the loop throws.
pub add_day : ℕ → Json → DaysResult
add_day mask (whole day) =
    if leb day 6
    then (if covers mask day
        then days_error (listed_twice day)
        else days_mask (bit_or mask (2 ^ day)))
    else days_error bad_days
add_day mask _ = days_error bad_days

pub add_days : ℕ → Items → DaysResult
unfolding add_day
add_days mask nil = days_mask mask
add_days mask (cons v vs) = elim (add_day mask v) [
  | days_mask next ↦ add_days next vs
  | days_error e ↦ days_error e
]

unfoldable pub days_to_mask : Json → DaysResult
unfolding add_days
days_to_mask (array items) =
    if count_items items == 0 || ltb 7 (count_items items)
    then days_error bad_days
    else add_days 0 items
days_to_mask _ = days_error bad_days

-- `days.reduce((mask, day) => mask | (1 << day), 0)`
unfoldable pub days_of_list : ℕ → List ℕ → ℕ
days_of_list mask [] = mask
days_of_list mask (day ∷ days) = days_of_list (bit_or mask (2 ^ day)) days
