-- ===== src/Power/Days/Named.antt =====
-- Which lists of days are accepted, and the mask that they give.
use Prim.Native.Nat.{bit_or}
use labkiosk.Shared.{
  ℕ, suc, ◌+◌, ◌^◌, ◌≤◌, ◌<◌, ◌≡◌, refl, Bool, true, false, ◌||◌, ◌==◌, nat_eq, ltb, arith,
  if◌then◌else◌, ap,
}
use labkiosk.Json.{Json, Items, undefined, whole, array, nil, cons}
use labkiosk.Power.Days.{
  covers, DaysResult, days_mask, days_error, bad_days, count_items, add_day, add_days, days_to_mask,
}
use labkiosk.Power.Days.Bits.{bit_or-bound, covers-bit_or, no_day}

-- How often a list names a day.
abbrev pub times : ℕ → Items → ℕ
times d nil = 0
times d (cons (whole n) vs) = if n == d then suc (times d vs) else times d vs
times d (cons _ vs) = times d vs

-- Every item is a day of the week.
abbrev pub AreDays : Items → Type 0
AreDays nil = Unit
AreDays (cons (whole n) vs) = (n ≤ 6) × AreDays vs
AreDays (cons _ vs) = ⊥

abbrev pub bit : Bool → ℕ
bit true = 1
bit false = 0

abbrev pub Collected : ℕ → Items → ℕ → Type 0
Collected from items mask =
    (mask < 128)
    × AreDays items
    × ((d : ℕ) → d < 7 → bit (covers mask d) ≡ bit (covers from d) + times d items)

add_day_lem :
    (mask n next : ℕ)
    → add_day mask (whole n) ≡ days_mask next
    → (n ≤ 6) × (covers mask n ≡ false) × (next ≡ bit_or mask (2 ^ n))
unfolding add_day
add_day_lem mask n next h = ground arith

-- The round that a list which is let through began with.
first_round :
    (from mask : ℕ) (v : Json) (vs : Items) (r : DaysResult)
    → add_day from v ≡ r
    → add_days from (cons v vs) ≡ days_mask mask
    → (next : ℕ) × (add_day from v ≡ days_mask next) × (add_days next vs ≡ days_mask mask)
unfolding add_days
first_round from mask v vs (days_mask next) e h = (next, e, rw (e, add_days) at h)
first_round from mask v vs (days_error x) e h =
    let wrong : days_error x ≡ days_mask mask = rw (e, add_days) at h in cc

add_days-Collected :
    (from mask : ℕ) (items : Items)
    → from < 128
    → add_days from items ≡ days_mask mask
    → Collected from items mask
unfolding add_days
add_days-Collected from mask nil m h =
    let same : from ≡ mask = cc in rw (← same) (m, tt, λ d p. omega arith)
add_days-Collected from mask (cons (whole n) vs) m h =
    let (next, round, rest) = first_round from mask (whole n) vs (add_day from (whole n)) refl h in
    let (day, fresh, value) = add_day_lem from n next round in
    let bound : next < 128 = rw value (bit_or-bound from n m (omega arith)) in
    let (low, are, bits) = add_days-Collected next mask vs bound rest in
    (
      low,
      (day, are),
      λ d p. ground (
        arith,
        bits d p,
        ap (λ k. covers k d) value,
        covers-bit_or from n m (omega arith) d p,
        ap (covers from) {x = n} {y = d},
      ),
    )
add_days-Collected from mask (cons undefined vs) m h = cc
add_days-Collected from mask (cons _ vs) m h = cc

unguarded :
    (b : Bool) (r : DaysResult) (mask : ℕ)
    → (if b then days_error bad_days else r) ≡ days_mask mask
    → (b ≡ false) × (r ≡ days_mask mask)
unguarded true r mask h = cc
unguarded false r mask h = (refl, h)

-- A list of days is let through only if it names one to seven days of the week and none twice, and
-- the mask then covers exactly the days that it names.
pub days_to_mask_sound :
    (items : Items) (mask : ℕ)
    → days_to_mask (array items) ≡ days_mask mask
    → (mask < 128)
      × AreDays items
      × ((d : ℕ) → d < 7 → times d items ≡ (if covers mask d then 1 else 0))
      × (1 ≤ count_items items)
      × (count_items items ≤ 7)
unfolding days_to_mask
days_to_mask_sound items mask h =
    let n = count_items items in
    let (guarded, added) = unguarded (n == 0 || ltb 7 n) (add_days 0 items) mask h in
    let (low, are, bits) = add_days-Collected 0 mask items (omega arith) added in
    (low, are, λ d p. ground (arith, bits d p, no_day d p), ground arith, ground arith)

pub days_to_mask-bound :
    (value : Json) (mask : ℕ) → days_to_mask value ≡ days_mask mask → mask < 128
unfolding days_to_mask
days_to_mask-bound (array items) mask h = (days_to_mask_sound items mask h).0
days_to_mask-bound undefined mask h = cc
days_to_mask-bound _ mask h = cc
