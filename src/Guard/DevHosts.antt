-- ===== src/Guard/DevHosts.antt =====
-- guard.ts `isDevHost`: a name of this machine, or an address of a private network.
use labkiosk.Shared.{
  ℕ, ◌+◌, ◌-◌, ◌*◌, ◌≤◌, ◌≡◌, ◌⊎◌, inl, inr, refl, true, ◌&&◌, ◌||◌, List, [], ◌∷◌, ◌++◌, ◌==◌,
  nat_eq, length, all, is_digit, units, units_comparable, units_eq_iff, IsAmong, among_iff,
  Bool-cases, arith,
}
use mathlib.Core.Path.{subst}
use labkiosk.Web.{split_on}
use labkiosk.Lan.{join}
use labkiosk.Lan.Addresses.{join-split_on}
use labkiosk.Guard.{is_dev_name, is_dev_host, is_octet, is_16_to_31, is_private_quad}

abbrev pub IsDevName : List ℕ → Type 0
IsDevName host =
    IsAmong
      ("localhost" ∷ "127.0.0.1" ∷ "0.0.0.0" ∷ "[::1]" ∷ "host.docker.internal"
        ∷ "host.containers.internal" ∷ [])
      host

-- One to three digits.
abbrev pub IsOctet : List ℕ → Type 0
IsOctet part = (all is_digit part ≡ true) × (1 ≤ length part) × (length part ≤ 3)

-- The number of two digits, from 16 to 31.
abbrev pub IsFrom16To31 : List ℕ → Type 0
IsFrom16To31 part =
    (u v : ℕ) × (part ≡ u ∷ v ∷ [])
    × (is_digit v ≡ true)
    × (16 ≤ (u - b'0') * 10 + (v - b'0'))
    × ((u - b'0') * 10 + (v - b'0') ≤ 31)

-- 127/8, 192.168/16, 10/8 and 172.16/12.
abbrev pub IsPrivateStart : List ℕ → List ℕ → Type 0
IsPrivateStart a b =
    ((a ≡ units "127") × IsOctet b)
    ⊎ ((a ≡ units "192") × (b ≡ units "168"))
    ⊎ ((a ≡ units "10") × IsOctet b)
    ⊎ ((a ≡ units "172") × IsFrom16To31 b)

abbrev pub IsPrivateAddress : List ℕ → Type 0
IsPrivateAddress host =
    (a b c d : List ℕ) × (host ≡ a ++ b'.' ∷ (b ++ b'.' ∷ (c ++ b'.' ∷ d)))
    × IsPrivateStart a b
    × IsOctet c
    × IsOctet d

abbrev pub IsDevHost : List ℕ → Type 0
IsDevHost host = IsDevName host ⊎ IsPrivateAddress host

octet_lem : (part : List ℕ) → is_octet part ≡ true → IsOctet part
octet_lem part h = (ground arith, ground arith, ground arith)

from_16_to_31_lem : (part : List ℕ) → is_16_to_31 part ≡ true → IsFrom16To31 part
from_16_to_31_lem [] h = cc
from_16_to_31_lem (u ∷ []) h = cc
from_16_to_31_lem (u ∷ v ∷ []) h = (u, v, refl, ground arith, ground arith, ground arith)
from_16_to_31_lem (u ∷ v ∷ w ∷ rest) h = cc

start_lem :
    (a b : List ℕ)
    → ((a == units "127" && is_octet b)
        || (a == units "192" && b == units "168")
        || (a == units "10" && is_octet b)
        || (a == units "172" && is_16_to_31 b))
      ≡ true
    → IsPrivateStart a b
start_lem a b h =
    let is127 = (units_eq_iff a (units "127")).0 in
    let is192 = (units_eq_iff a (units "192")).0 in
    let is168 = (units_eq_iff b (units "168")).0 in
    let is10 = (units_eq_iff a (units "10")).0 in
    let is172 = (units_eq_iff a (units "172")).0 in
    elim (Bool-cases (a == units "127" && is_octet b)) [
      | inl e ↦ inl (is127 (ground arith), octet_lem b (ground arith))
      | inr e ↦ elim (Bool-cases (a == units "192" && b == units "168")) [
        | inl f ↦ inr (inl (is192 (ground arith), is168 (ground arith)))
        | inr f ↦ elim (Bool-cases (a == units "10" && is_octet b)) [
          | inl g ↦ inr (inr (inl (is10 (ground arith), octet_lem b (ground arith))))
          | inr g ↦ inr (inr (inr (is172 (ground arith), from_16_to_31_lem b (ground arith))))
        ]
      ]
    ]

private_lem :
    (parts : List (List ℕ)) → is_private_quad parts ≡ true → IsPrivateAddress (join b'.' parts)
unfolding join
private_lem [] h = cc
private_lem (a ∷ []) h = cc
private_lem (a ∷ b ∷ []) h = cc
private_lem (a ∷ b ∷ c ∷ []) h = cc
private_lem (a ∷ b ∷ c ∷ d ∷ []) h = (
  a,
  b,
  c,
  d,
  refl,
  start_lem a b (ground arith),
  octet_lem c (ground arith),
  octet_lem d (ground arith),
)
private_lem (a ∷ b ∷ c ∷ d ∷ e ∷ rest) h = cc

pub is_dev_name-IsDevName : (host : List ℕ) → is_dev_name host ≡ true → IsDevName host
is_dev_name-IsDevName host h =
    (among_iff
        ("localhost" ∷ "127.0.0.1" ∷ "0.0.0.0" ∷ "[::1]" ∷ "host.docker.internal"
          ∷ "host.containers.internal" ∷ [])
        host).0
      h

pub is_dev_host-IsDevHost : (host : List ℕ) → is_dev_host host ≡ true → IsDevHost host
unfolding is_dev_host
is_dev_host-IsDevHost host h = elim (Bool-cases (is_dev_name host)) [
  | inl e ↦ inl (is_dev_name-IsDevName host e)
  | inr e ↦ inr (
      subst IsPrivateAddress (join-split_on b'.' host)
        (private_lem (split_on b'.' host) (ground arith)))
]
