-- ===== src/Releases.antt =====
-- cloudflare-control/src/releases.ts: the versions of releases. A version that `isReleaseVersion` takes
-- is kept with its key; `versionKey` throws on any other text.
mod Total
pub mod Order
mod Majors
pub mod Offers
pub mod Eligible
mod Choice
mod Target
mod Latest
mod Gates
mod Rows
mod Permits
mod Doubles
pub mod Updates
pub mod Install
mod Ready
mod Sends
mod Tests
use Prim.Native.String.{String}
use labkiosk.Shared.{
  ℕ, zero, suc, ◌+◌, ◌-◌, ◌*◌, ◌/◌, ◌%◌, ◌^◌, Bool, true, false, not, ◌&&◌, ◌||◌, Option, none,
  some, List, [], ◌∷◌, ◌==◌, nat_eq, leb, ltb, length, all, units, is_digit, map, if◌then◌else◌,
}
use labkiosk.Web.{split_on, is_alphanumeric}
use labkiosk.Lan.{decimal}

pub data Comparison : Type 0 where
  less equal greater : Comparison

-- An identifier of digits counts as its number and comes before any text.
pub data Identifier : Type 0 where
  number : ℕ → Identifier
  word : List ℕ → Identifier

pub record Core : Type 0 where
  pub major : ℕ
  pub minor : ℕ
  pub patch : ℕ

pub record VersionKey : Type 0 where
  pub core : Core
  pub pre : Option (List Identifier)

-- `Number(part)` of more than 53 bits is the nearest double, to even where two are as near.
abbrev pub excess_bits : ℕ → ℕ → ℕ
excess_bits zero n = 0
excess_bits (suc fuel) n =
    let rest = excess_bits fuel (n / 2) in if ltb n (2 ^ 53) then 0 else suc rest

abbrev round_half_even : ℕ → ℕ → ℕ
round_half_even n unit =
    let low = n / unit * unit in
    let twice = 2 * (n % unit) in
    if ltb twice unit
    then low
    else if ltb unit twice
    then low + unit
    else if n / unit % 2 == 0
    then low
    else low + unit

-- 32 digits are less than 107 bits, 54 more than a double has.
abbrev pub max_excess : ℕ
max_excess = 54

unfoldable pub to_double : ℕ → ℕ
to_double n = if ltb n (2 ^ 53) then n else round_half_even n (2 ^ excess_bits max_excess n)

abbrev identifier : List ℕ → Identifier
unfolding to_double decimal
identifier part = if all is_digit part then number (to_double (decimal 0 part)) else word part

-- The text before the first `-` and the text after it.
abbrev pub cut_at : ℕ → List ℕ → List ℕ × Option (List ℕ)
cut_at mark [] = ([], none)
cut_at mark (c ∷ cs) =
    let (before, after) = cut_at mark cs in if c == mark then ([], some cs) else (c ∷ before, after)

abbrev is_core_part : List ℕ → Bool
is_core_part part = all is_digit part && leb 1 (length part) && leb (length part) 4

abbrev core_of : List (List ℕ) → Option Core
unfolding decimal
core_of (a ∷ b ∷ c ∷ []) =
    if is_core_part a && is_core_part b && is_core_part c
    then some (record { major = decimal 0 a; minor = decimal 0 b; patch = decimal 0 c })
    else none
core_of _ = none

abbrev is_pre : List ℕ → Bool
is_pre pre =
    all (λ c. is_alphanumeric c || c == b'.') pre
    && leb 1 (length pre)
    && leb (length pre) 32
    && all (λ part. leb 1 (length part)) (split_on b'.' pre)

abbrev key_of : Option Core → Option (List ℕ) → Option VersionKey
unfolding split_on to_double decimal
key_of none pre = none
key_of (some core) none = some (record { core = core; pre = none })
key_of (some core) (some pre) =
    if is_pre pre
    then some (record { core = core; pre = some (map identifier (split_on b'.' pre)) })
    else none

-- None where `versionKey` throws.
unfoldable pub version_key : String → Option VersionKey
unfolding key_of core_of split_on
version_key version =
    let (core, pre) = cut_at b'-' (units version) in key_of (core_of (split_on b'.' core)) pre

pub record Version : Type 0 where
  pub name : String
  pub key : VersionKey

abbrev pub version_with : String → Option VersionKey → Option Version
version_with name none = none
version_with name (some key) = some (record { name = name; key = key })

-- The version of a text that `isReleaseVersion` takes.
unfoldable pub release_version : String → Option Version
unfolding version_key
release_version text = version_with text (version_key text)

abbrev pub compare_number : ℕ → ℕ → Comparison
compare_number a b = if ltb a b then less else if ltb b a then greater else equal

-- What decides first, else what comes after it.
abbrev pub decided : Comparison → Comparison → Comparison
decided less next = less
decided equal next = next
decided greater next = greater

-- Item by item; of two lists that agree, the longer one comes later.
abbrev pub compare_items {ℓ} : {A : Type ℓ} → (A → A → Comparison) → List A → List A → Comparison
compare_items compare [] [] = equal
compare_items compare [] (b ∷ bs) = less
compare_items compare (a ∷ rest) [] = greater
compare_items compare (a ∷ rest) (b ∷ bs) = decided (compare a b) (compare_items compare rest bs)

abbrev pub compare_identifier : Identifier → Identifier → Comparison
compare_identifier (number a) (number b) = compare_number a b
compare_identifier (number a) (word t) = less
compare_identifier (word s) (number b) = greater
compare_identifier (word s) (word t) = compare_items compare_number s t

abbrev pub compare_core : Core → Core → Comparison
compare_core a b =
    decided (compare_number a.major b.major)
      (decided (compare_number a.minor b.minor) (compare_number a.patch b.patch))

-- A release comes after its candidates.
abbrev pub compare_pre : Option (List Identifier) → Option (List Identifier) → Comparison
compare_pre none none = equal
compare_pre none (some pre) = greater
compare_pre (some pre) none = less
compare_pre (some a) (some b) = compare_items compare_identifier a b

unfoldable pub compare_versions : Version → Version → Comparison
compare_versions a b =
    decided (compare_core a.key.core b.key.core) (compare_pre a.key.pre b.key.pre)
