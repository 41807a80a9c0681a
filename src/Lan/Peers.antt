-- ===== src/Lan/Peers.antt =====
-- cloudflare-control/src/lan_sharing.ts: whom a workstation copies a release from.
use labkiosk.Shared.{
  ℕ, ◌≡◌, refl, sym, ◌∙◌, Bool, true, false, ◌&&◌, ◌||◌, ap, suc, option_beq, Option, none, some,
  List, [], ◌∷◌, map, String, ◌==◌, units_comparable, units_eq_iff, leb, min, length, length-map,
  length-take, length-sort, take, filter, sort, All-sort, any, all, all-filter, All, All-map,
  All-take, arith,
}
use labkiosk.Lan.{LanReport, site_key}
use labkiosk.Lan.Decision.{SiteMember, holds, at_site, neighbours}

abbrev max_lan_peers : ℕ
max_lan_peers = 8

-- The keys are what `crypto.getRandomValues` gives, one for each holder.
pub record Peer : Type 0 where
  pub address : List ℕ
  pub key : ℕ

abbrev keyed : List (List ℕ) → List ℕ → List Peer
keyed (address ∷ addresses) (key ∷ keys) =
    record { address = address; key = key } ∷ keyed addresses keys
keyed _ _ = []

abbrev address_of : Peer → List ℕ
address_of p = p.address

abbrev with_address : Option LanReport → List (List ℕ) → List (List ℕ)
with_address none addresses = addresses
with_address (some lan) addresses = lan.address ∷ addresses

abbrev addresses_of : List SiteMember → List (List ℕ)
addresses_of [] = []
addresses_of (o ∷ os) = with_address o.lan (addresses_of os)

abbrev spread : List (List ℕ) → List ℕ → List (List ℕ)
spread addresses order =
    map address_of (take max_lan_peers (sort (λ a b. leb a.key b.key) (keyed addresses order)))

abbrev pub release_holders : SiteMember → List ℕ → String → List SiteMember → ℕ → List SiteMember
release_holders member site version others now =
    filter (λ o. holds o version now) (neighbours member site others)

abbrev peers_at :
    Option (List ℕ) → SiteMember → String → List SiteMember → ℕ → List ℕ → List (List ℕ)
peers_at none member version others now order = []
peers_at (some site) member version others now order =
    spread (addresses_of (release_holders member site version others now)) order

unfoldable pub lan_peers : SiteMember → String → List SiteMember → ℕ → List ℕ → List (List ℕ)
unfolding holds
lan_peers member version others now order =
    peers_at (site_key member.ip member.lan) member version others now order

abbrev pub lan_has_address : Option LanReport → List ℕ → Bool
lan_has_address none address = false
lan_has_address (some lan) address = lan.address == address

abbrev pub has_address : List ℕ → SiteMember → Bool
has_address address o = lan_has_address o.lan address

-- An address that is one of some workstation among `os`.
abbrev pub IsOneOf : List SiteMember → List ℕ → Type 0
IsOneOf os address = any (has_address address) os ≡ true

All-keyed :
    (P : List ℕ → Type 0) (addresses : List (List ℕ)) (order : List ℕ)
    → All P addresses
    → All (λ p. P p.address) (keyed addresses order)
All-keyed P [] order h = tt
All-keyed P (a ∷ rest) [] h = tt
All-keyed P (a ∷ rest) (k ∷ ks) (h, hs) = (h, All-keyed P rest ks hs)

or_left : (b c : Bool) → b ≡ true → (b || c) ≡ true
or_left true c h = refl
or_left false c h = cc

any_cons : (b c : Bool) → c ≡ true → (b || c) ≡ true
any_cons true c h = refl
any_cons false c h = h

IsOneOf-cons :
    (o : SiteMember) (os : List SiteMember) (addresses : List (List ℕ))
    → All (IsOneOf os) addresses
    → All (IsOneOf (o ∷ os)) addresses
IsOneOf-cons o os [] h = tt
IsOneOf-cons o os (a ∷ rest) (h, hs) =
    (any_cons (has_address a o) (any (has_address a) os) h, IsOneOf-cons o os rest hs)

with_address-IsOneOf :
    (lan : Option LanReport) (o : SiteMember) (os : List SiteMember) (rest : List (List ℕ))
    → ((a : List ℕ) → lan_has_address lan a ≡ has_address a o)
    → All (IsOneOf (o ∷ os)) rest
    → All (IsOneOf (o ∷ os)) (with_address lan rest)
with_address-IsOneOf none o os rest k h = h
with_address-IsOneOf (some lan) o os rest k h =
    let same = (units_eq_iff lan.address lan.address).1 refl in
    (
      or_left (has_address lan.address o) (any (has_address lan.address) os)
          (sym (k lan.address) ∙ same),
      h,
    )

All-addresses_of : (os : List SiteMember) → All (IsOneOf os) (addresses_of os)
All-addresses_of [] = tt
All-addresses_of (o ∷ os) =
    with_address-IsOneOf o.lan o os (addresses_of os) (λ a. refl)
      (IsOneOf-cons o os (addresses_of os) (All-addresses_of os))

length-keyed :
    (addresses : List (List ℕ)) (order : List ℕ)
    → length order ≡ length addresses
    → length (keyed addresses order) ≡ length addresses
length-keyed [] order h = refl
length-keyed (a ∷ rest) [] h = omega arith
length-keyed (a ∷ rest) (k ∷ ks) h = let ih = length-keyed rest ks in ground arith

abbrev pub holders_at :
    Option (List ℕ) → SiteMember → String → List SiteMember → ℕ → List SiteMember
holders_at none member version others now = []
holders_at (some site) member version others now = release_holders member site version others now

and_true : {b c : Bool} → (b && c) ≡ true → (b ≡ true) × (c ≡ true)
and_true h = (ground arith, ground arith)

abbrev has_lan : SiteMember → Bool
has_lan o = elim o.lan [ none ↦ false | some lan ↦ true ]

with_address-length :
    (lan : Option LanReport) (rest : List (List ℕ))
    → elim lan [ none ↦ false | some l ↦ true ] ≡ true
    → length (with_address lan rest) ≡ suc (length rest)
with_address-length none rest h = cc
with_address-length (some lan) rest h = refl

length-addresses_of :
    (os : List SiteMember) → all has_lan os ≡ true → length (addresses_of os) ≡ length os
length-addresses_of [] h = refl
length-addresses_of (o ∷ os) h =
    let (here, there) = and_true h in
    with_address-length o.lan (addresses_of os) here ∙ ap suc (length-addresses_of os there)

all-filter_of :
    (p q : SiteMember → Bool) (xs : List SiteMember)
    → ((x : SiteMember) → p x ≡ true → q x ≡ true)
    → all q (filter p xs) ≡ true
all-filter_of p q [] k = refl
all-filter_of p q (x ∷ xs) k = let ih = all-filter_of p q xs k in let here = k x in ground arith

key_has_lan :
    (site ip : List ℕ) (lan : Option LanReport)
    → option_beq (site_key ip lan) (some site) ≡ true
    → elim lan [ none ↦ false | some l ↦ true ] ≡ true
unfolding site_key
key_has_lan site ip none h = cc
key_has_lan site ip (some lan) h = refl

at_site-has_lan :
    (member : SiteMember) (site : List ℕ) (o : SiteMember)
    → at_site member site o ≡ true
    → has_lan o ≡ true
at_site-has_lan member site o h = key_has_lan site o.ip o.lan (and_true h).1

holders-all_have_lan :
    (at : Option (List ℕ)) (member : SiteMember) (version : String) (others : List SiteMember)
    (now : ℕ)
    → all has_lan (holders_at at member version others now) ≡ true
holders-all_have_lan none member version others now = refl
holders-all_have_lan (some site) member version others now =
    all-filter (λ o. holds o version now) has_lan (neighbours member site others)
      (all-filter_of (at_site member site) has_lan others (at_site-has_lan member site))

spread_lem :
    (os : List SiteMember) (order : List ℕ)
    → all has_lan os ≡ true
    → length order ≡ length os
    → (length (spread (addresses_of os) order) ≡ min 8 (length os))
      × All (IsOneOf os) (spread (addresses_of os) order)
spread_lem os order h k =
    let count = length-addresses_of os h in
    let all_keyed = All-keyed (IsOneOf os) (addresses_of os) order (All-addresses_of os) in
    let sorted = sort (λ a b. leb a.key b.key) (keyed (addresses_of os) order) in
    (
      length-map address_of (take max_lan_peers sorted)
          ∙ length-take max_lan_peers sorted
          ∙ ap (min 8) (
              length-sort (λ a b. leb a.key b.key) (keyed (addresses_of os) order)
              ∙ length-keyed (addresses_of os) order (k ∙ sym count)
              ∙ count),
      All-map (IsOneOf os) address_of (take max_lan_peers sorted) (
          All-take (λ p. IsOneOf os p.address) max_lan_peers sorted
            (All-sort (λ a b. leb a.key b.key) (λ p. IsOneOf os p.address)
              (keyed (addresses_of os) order) all_keyed)),
    )

-- The holders of a release that `member` may copy it from.
abbrev pub site_holders : SiteMember → String → List SiteMember → ℕ → List SiteMember
site_holders member version others now =
    holders_at (site_key member.ip member.lan) member version others now

peers_at_lem :
    (site : Option (List ℕ)) (member : SiteMember) (version : String) (others : List SiteMember)
    (now : ℕ) (order : List ℕ)
    → length order ≡ length (holders_at site member version others now)
    → (length (peers_at site member version others now order)
        ≡ min 8 (length (holders_at site member version others now)))
      × All
          (IsOneOf (holders_at site member version others now))
          (peers_at site member version others now order)
unfolding holds
peers_at_lem none member version others now order k = (refl, tt)
peers_at_lem (some site) member version others now order k =
    spread_lem (release_holders member site version others now) order
      (holders-all_have_lan (some site) member version others now) k

pub lan_peers_lem :
    (member : SiteMember) (version : String) (others : List SiteMember) (now : ℕ) (order : List ℕ)
    → length order ≡ length (site_holders member version others now)
    → (length (lan_peers member version others now order)
        ≡ min 8 (length (site_holders member version others now)))
      × All
          (IsOneOf (site_holders member version others now))
          (lan_peers member version others now order)
unfolding lan_peers
lan_peers_lem member version others now order k =
    peers_at_lem (site_key member.ip member.lan) member version others now order k
