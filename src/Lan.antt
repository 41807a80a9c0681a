-- ===== src/Lan.antt =====
-- cloudflare-control/src/lan_sharing.ts: where a workstation is on its network. Texts are lists of
-- UTF-16 units; `>>>`, `<<` and `&` with a mask are written by division and remainder.
pub mod Addresses
pub mod Decision
mod Neighbours
mod Holding
mod Peers
mod Copies
mod Waiting
mod Tests
use labkiosk.Shared.{
  ℕ, zero, suc, ◌+◌, ◌-◌, ◌*◌, ◌/◌, ◌%◌, ◌^◌, Bool, true, false, not, ◌&&◌, ◌||◌, Option, none,
  some, List, [], ◌∷◌, ◌++◌, map, String, ◌==◌, nat_eq, units_comparable, leb, ltb, length, all,
  any, take, units, is_digit, includes_unit, if◌then◌else◌,
}
use labkiosk.Json.{Json, property, object, text, whole}
use labkiosk.Web.{split_on}

pub record LanReport : Type 0 where
  pub address : List ℕ
  pub prefix : ℕ

-- `Number(text)` of decimal digits.
unfoldable pub decimal : ℕ → List ℕ → ℕ
decimal acc [] = acc
decimal acc (c ∷ cs) = decimal (acc * 10 + (c - b'0')) cs

-- `String(n)` of a number below 1000.
unfoldable pub octet_text : ℕ → List ℕ
octet_text n =
    if ltb n 10
    then (b'0' + n) ∷ []
    else if ltb n 100
    then (b'0' + n / 10) ∷ (b'0' + n % 10) ∷ []
    else (b'0' + n / 100) ∷ (b'0' + n / 10 % 10) ∷ (b'0' + n % 10) ∷ []

-- `\d{1,3}` that is at most 255 and has no leading zero.
abbrev pub octet : List ℕ → Option ℕ
octet part =
    if all is_digit part
      && leb 1 (length part)
      && leb (length part) 3
      && leb (decimal 0 part) 255
      && octet_text (decimal 0 part) == part
    then some (decimal 0 part)
    else none

abbrev pub of_octets : Option ℕ → Option ℕ → Option ℕ → Option ℕ → Option ℕ
of_octets (some a) (some b) (some c) (some d) = some (a * 2 ^ 24 + b * 2 ^ 16 + c * 2 ^ 8 + d)
of_octets _ _ _ _ = none

abbrev pub of_parts : List (List ℕ) → Option ℕ
of_parts (a ∷ b ∷ c ∷ d ∷ []) = of_octets (octet a) (octet b) (octet c) (octet d)
of_parts _ = none

unfoldable pub ipv4_number : List ℕ → Option ℕ
unfolding split_on decimal octet_text
ipv4_number address = of_parts (split_on b'.' address)

-- `parts.join(mark)`
unfoldable pub join : ℕ → List (List ℕ) → List ℕ
join mark [] = []
join mark (part ∷ []) = part
join mark (part ∷ next ∷ rest) = part ++ mark ∷ join mark (next ∷ rest)

unfoldable pub ipv4_text : ℕ → List ℕ
unfolding join octet_text
ipv4_text value = join b'.' (
    octet_text (value / 2 ^ 24)
    ∷ octet_text (value / 2 ^ 16 % 256)
    ∷ octet_text (value / 2 ^ 8 % 256)
    ∷ octet_text (value % 256)
    ∷ [])

-- 10/8, 172.16/12 and 192.168/16.
abbrev pub is_private_ipv4 : ℕ → Bool
is_private_ipv4 value = value / 2 ^ 24 == 10 || value / 2 ^ 20 == 0xac1 || value / 2 ^ 16 == 0xc0a8

-- `value & ~mask(prefix)` and `value & mask(prefix)`, of a prefix of at most 32.
abbrev pub host_part : ℕ → ℕ → ℕ
host_part prefix value = value % 2 ^ (32 - prefix)

abbrev pub network_part : ℕ → ℕ → ℕ
network_part prefix value = value - value % 2 ^ (32 - prefix)

abbrev min_prefix : ℕ
min_prefix = 16

abbrev max_prefix : ℕ
max_prefix = 30

-- Neither the network's own address nor its broadcast address is a host.
abbrev pub is_host_address : ℕ → ℕ → Bool
is_host_address prefix value =
    not (host_part prefix value == 0) && not (host_part prefix value == 2 ^ (32 - prefix) - 1)

abbrev text_or_empty : Json → List ℕ
text_or_empty (text s) = units s
text_or_empty _ = []

abbrev report_at : List ℕ → Option ℕ → Json → Option LanReport
report_at address none prefix = none
report_at address (some value) (whole prefix) =
    if is_private_ipv4 value
      && leb min_prefix prefix
      && leb prefix max_prefix
      && is_host_address prefix value
    then some (record { address = address; prefix = prefix })
    else none
report_at address (some value) _ = none

unfoldable pub normalize_lan_report : Json → Option LanReport
unfolding ipv4_number
normalize_lan_report (object body) =
    let address = text_or_empty (property body "address") in
    report_at address (ipv4_number address) (property body "prefix")
normalize_lan_report _ = none

unfoldable pub same_lan_report : Option LanReport → Option LanReport → Bool
same_lan_report none none = true
same_lan_report none (some b) = false
same_lan_report (some a) none = false
same_lan_report (some a) (some b) = a.address == b.address && a.prefix == b.prefix

abbrev is_hex : ℕ → Bool
is_hex c = is_digit c || (leb b'a' c && leb c b'f')

abbrev lower_hex : ℕ → ℕ
lower_hex c = if leb b'A' c && leb c b'F' then c + 32 else c

-- `text.split("::")`
unfoldable pub split_double : List ℕ → List (List ℕ)
split_double [] = [] ∷ []
split_double (c ∷ []) = (c ∷ []) ∷ []
split_double (c ∷ d ∷ cs) =
    let apart = split_double cs in
    let rest = split_double (d ∷ cs) in
    if c == b':' && d == b':'
    then [] ∷ apart
    else elim rest [ [] ↦ (c ∷ []) ∷ [] | part ∷ parts ↦ (c ∷ part) ∷ parts ]

abbrev groups_of_half : List ℕ → List (List ℕ)
groups_of_half [] = []
groups_of_half (c ∷ cs) = split_on b':' (c ∷ cs)

abbrev zeros : ℕ → List (List ℕ)
zeros zero = []
zeros (suc n) = (b'0' ∷ []) ∷ zeros n

-- The groups of an address; none where there are not eight, with at least one for `::`.
abbrev groups_of_halves : List (List ℕ) → Option (List (List ℕ))
groups_of_halves (address ∷ []) =
    if length (groups_of_half address) == 8 then some (groups_of_half address) else none
groups_of_halves (head ∷ tail ∷ []) =
    let present = length (groups_of_half head) + length (groups_of_half tail) in
    if ltb present 8
    then some (groups_of_half head ++ zeros (8 - present) ++ groups_of_half tail)
    else none
groups_of_halves _ = none

abbrev is_group : List ℕ → Bool
is_group g = all is_hex g && leb 1 (length g) && leb (length g) 4

-- `g.replace(/^0+(?=.)/, "")`
abbrev without_zeros : List ℕ → List ℕ
without_zeros [] = []
without_zeros (c ∷ []) = c ∷ []
without_zeros (c ∷ d ∷ cs) = if c == b'0' then without_zeros (d ∷ cs) else c ∷ d ∷ cs

abbrev subnet_of : Option (List (List ℕ)) → Option (List ℕ)
subnet_of none = none
subnet_of (some groups) =
    if all is_group groups
    then some (join b':' (map without_zeros (take 4 groups)) ++ units "::/64")
    else none

abbrev is_ipv6_text : List ℕ → Bool
is_ipv6_text ip =
    all (λ c. is_hex (lower_hex c) || c == b':') ip
    && leb 2 (length ip)
    && leb (length ip) 39
    && includes_unit b':' ip

unfoldable pub egress_key : List ℕ → Option (List ℕ)
unfolding ipv4_number split_double join units
egress_key ip = elim (ipv4_number ip) [
  | some value ↦ some ip
  | none ↦
      if is_ipv6_text ip
      then subnet_of (groups_of_halves (split_double (map lower_hex ip)))
      else none
]

abbrev site_text : Option (List ℕ) → Option ℕ → ℕ → Option (List ℕ)
site_text (some egress) (some value) prefix =
    some (egress ++ (b'|' ∷ ipv4_text (network_part prefix value)) ++ b'/' ∷ octet_text prefix)
site_text _ _ prefix = none

unfoldable pub site_key : List ℕ → Option LanReport → Option (List ℕ)
unfolding egress_key ipv4_text octet_text
site_key ip none = none
site_key ip (some lan) = site_text (egress_key ip) (ipv4_number lan.address) lan.prefix
