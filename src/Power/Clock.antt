-- ===== src/Power/Clock.antt =====
-- power.ts `parseClockTime` and `formatClockTime`: "HH:MM" and minutes after midnight. Texts that
-- are taken apart or built are given by their UTF-16 units.
use labkiosk.Shared.{
  ◌↔◌, ℕ, some_of_if, ◌+◌, ◌-◌, ◌*◌, ◌/◌, ◌%◌, ◌<◌, ◌≤◌, ◌≡◌, Bool, true, ◌&&◌, ◌||◌, Option, none,
  some, List, [], ◌∷◌, ◌==◌, nat_eq, leb, is_digit, units, arith, if◌then◌else◌,
}
use mathlib.Core.Path.{subst}
use labkiosk.Json.{Json, undefined, text}

-- `/^([01][0-9]|2[0-3]):([0-5][0-9])$/`, on the five units that it matches.
abbrev is_time : ℕ → ℕ → ℕ → ℕ → ℕ → Bool
is_time h1 h2 colon m1 m2 =
    (((h1 == b'0' || h1 == b'1') && is_digit h2) || (h1 == b'2' && (leb b'0' h2 && leb h2 b'3')))
    && colon == b':'
    && (leb b'0' m1 && leb m1 b'5')
    && is_digit m2

-- `Number` of two digits.
abbrev pub two_digits : ℕ → ℕ → ℕ
two_digits a b = (a - b'0') * 10 + (b - b'0')

unfoldable pub parse_time_units : List ℕ → Option ℕ
parse_time_units (h1 ∷ h2 ∷ colon ∷ m1 ∷ m2 ∷ []) =
    if is_time h1 h2 colon m1 m2 then some (two_digits h1 h2 * 60 + two_digits m1 m2) else none
parse_time_units _ = none

-- `none` stands for the exception.
unfoldable pub parse_clock_time : Json → Option ℕ
unfolding parse_time_units
parse_clock_time (text s) = parse_time_units (units s)
parse_clock_time _ = none

-- `String(n).padStart(2, "0")`, for a number of at most two digits.
abbrev pub pad_two : ℕ → List ℕ → List ℕ
pad_two n rest = (b'0' + n / 10) ∷ (b'0' + n % 10) ∷ rest

unfoldable pub format_clock_time : ℕ → List ℕ
format_clock_time minutes = pad_two (minutes / 60) (b':' ∷ pad_two (minutes % 60) [])

-- Of every minute of the day, what is formatted parses to that minute again.
parse-format :
    (minutes : ℕ) → minutes < 1440 → parse_time_units (format_clock_time minutes) ≡ some minutes
unfolding parse_time_units format_clock_time
parse-format minutes h = ground arith

-- What a matched text says of its units.
record TimeUnits (h1 h2 colon m1 m2 : ℕ) : Type 0 where
  h1_low : b'0' ≤ h1
  h1_high : h1 ≤ b'2'
  h2_low : b'0' ≤ h2
  h2_high : h2 ≤ b'9'
  hour : h1 * 10 + h2 ≤ 551
  separator : colon ≡ b':'
  m1_low : b'0' ≤ m1
  m1_high : m1 ≤ b'5'
  m2_low : b'0' ≤ m2
  m2_high : m2 ≤ b'9'

is_time-TimeUnits :
    (h1 h2 colon m1 m2 : ℕ) → is_time h1 h2 colon m1 m2 ≡ true → TimeUnits h1 h2 colon m1 m2
is_time-TimeUnits h1 h2 colon m1 m2 h = ground arith

-- The digits of a number of two digits.
digits_back :
    (a b : ℕ)
    → b'0' ≤ a
    → b'0' ≤ b
    → b ≤ b'9'
    → (b'0' + two_digits a b / 10 ≡ a) × (b'0' + two_digits a b % 10 ≡ b)
digits_back a b h1 h2 h3 = omega arith

clock_parts :
    (h m : ℕ)
    → h < 24
    → m < 60
    → ((h * 60 + m) / 60 ≡ h) × ((h * 60 + m) % 60 ≡ m) × (h * 60 + m < 1440)
clock_parts h m p q = omega arith

format_TimeUnits :
    (h1 h2 colon m1 m2 : ℕ)
    → TimeUnits h1 h2 colon m1 m2
    → (format_clock_time (two_digits h1 h2 * 60 + two_digits m1 m2)
        ≡ h1 ∷ h2 ∷ colon ∷ m1 ∷ m2 ∷ [])
      × (two_digits h1 h2 * 60 + two_digits m1 m2 < 1440)
unfolding format_clock_time
format_TimeUnits h1 h2 colon m1 m2 t =
    let (hour, minute, bound) =
      clock_parts (two_digits h1 h2) (two_digits m1 m2) (omega arith) (omega arith) in
    let (a, b) = digits_back h1 h2 t.h1_low t.h2_low t.h2_high in
    let (c, d) = digits_back m1 m2 t.m1_low t.m2_low t.m2_high in
    (rw (hour, minute, a, b, c, d, t.separator), bound)

-- A text parses to a minute only if that minute formats to the text itself, and it is a minute of
-- the day: no two texts stand for one time.
pub format-parse :
    (cs : List ℕ) (minutes : ℕ)
    → parse_time_units cs ≡ some minutes
    → (format_clock_time minutes ≡ cs) × (minutes < 1440)
unfolding parse_time_units
format-parse (h1 ∷ h2 ∷ colon ∷ m1 ∷ m2 ∷ []) minutes h =
    let (matched, value) =
      some_of_if (is_time h1 h2 colon m1 m2) (two_digits h1 h2 * 60 + two_digits m1 m2) minutes h in
    rw (← value) (format_TimeUnits h1 h2 colon m1 m2 (is_time-TimeUnits h1 h2 colon m1 m2 matched))
format-parse _ minutes h = cc

-- A text is read as a time exactly if the time is a minute of the day and the text is the one that it is
-- written as: no two texts stand for one time.
pub parse_time_units_iff :
    (cs : List ℕ) (minutes : ℕ)
    → (parse_time_units cs ≡ some minutes) ↔ ((minutes < 1440) × (format_clock_time minutes ≡ cs))
parse_time_units_iff cs minutes = (
  λ h. (let (same, bound) = format-parse cs minutes h in (bound, same)),
  λ (bound, same). subst (λ t. parse_time_units t ≡ some minutes) same (parse-format minutes bound),
)

-- Whatever the value, a time that is accepted is a minute of the day.
pub parse_clock_time-bound :
    (value : Json) (minutes : ℕ) → parse_clock_time value ≡ some minutes → minutes < 1440
unfolding parse_clock_time
parse_clock_time-bound (text s) minutes h = (format-parse (units s) minutes h).1
parse_clock_time-bound undefined minutes h = cc
parse_clock_time-bound _ minutes h = cc
