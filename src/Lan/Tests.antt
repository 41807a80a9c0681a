-- ===== src/Lan/Tests.antt =====
-- Runs of the sharing of releases, and the theorems at concrete inputs.
use Prim.Native.String.{String}
use labkiosk.Shared.{
  ℕ, ◌+◌, ◌^◌, ◌<◌, ◌≡◌, ◌↔◌, refl, Option, none, false, some, List, [], ◌∷◌, map, units, units_eq,
  String, nat_eq, length, ◌≤◌, All, AtLeast, arith,
}
use labkiosk.Json.{property, text, whole, object, field, end}
use labkiosk.Web.{split_on}
use labkiosk.Lan.{
  LanReport, decimal, octet_text, split_double, join, ipv4_number, ipv4_text, normalize_lan_report,
  egress_key, site_key,
}
use labkiosk.Lan.Addresses.{ipv4_number_iff}
use labkiosk.Releases.{release_version, version_key, compare_versions, to_double}
use labkiosk.Releases.Offers.{ReleaseOffer}
use labkiosk.Releases.Eligible.{
  update_target_for, workstation_offer, security_release_for, newest_offered, installs_by_itself,
  eligible_releases, reachable, highest_major, newer_in_major, is_newer,
}
use labkiosk.Releases.Updates.{name_of_offer, release_nudge_target}
use labkiosk.Lan.Decision.{
  idle, feature, UpdatePhase, ready, downloading, UpdateReport, SiteMember, hold, holds, seeding,
  lan_decision,
}
use labkiosk.Lan.Neighbours.{IsHolder}
use labkiosk.Lan.Holding.{MustWait, lan_decision-hold_iff}
use labkiosk.Lan.Peers.{lan_peers, site_holders}
use labkiosk.Lan.Copies.{IsHolderAddress, lan_peers-AreHolders}
use labkiosk.Lan.Waiting.{Device, Hub, wait_for_site, nudge_socket}
use labkiosk.Lan.Waiting.Loop.{nudge_waiting, next_wait_end}
use labkiosk.Lan.Waiting.Alarm.{IsNextEnd, socket_of, wait_of, nudge_waiting-ends}
use labkiosk.Lan.Waiting.Ends.{IsFresh}

ipv4_number_read : ipv4_number (units "192.168.1.7") ≡ some 0xc0a80107
unfolding ipv4_number split_on decimal octet_text units_eq units
ipv4_number_read = refl

ipv4_number_leading_zero : ipv4_number (units "192.168.01.7") ≡ none
unfolding ipv4_number split_on decimal octet_text units_eq units
ipv4_number_leading_zero = refl

abbrev lan_at : ℕ → LanReport
lan_at n = record { address = ipv4_text (0xc0a80100 + n); prefix = 24 }

egress_of_ipv6 : egress_key (units "2001:DB8::00aa:1") ≡ some (units "2001:db8:0:0::/64")
unfolding egress_key split_double split_on ipv4_number units_eq units join decimal octet_text
egress_of_ipv6 = refl

site_of_a_workstation :
    site_key (units "203.0.113.9") (some (lan_at 7)) ≡ some (units "203.0.113.9|192.168.1.0/24")
unfolding site_key egress_key ipv4_number ipv4_text split_on join decimal octet_text units_eq units
site_of_a_workstation = refl

broadcast_is_no_host :
    normalize_lan_report
      (object (field "address" (text "192.168.1.255") (field "prefix" (whole 24) end)))
    ≡ none
unfolding property normalize_lan_report ipv4_number split_on decimal octet_text units_eq units
broadcast_is_no_host = refl

abbrev report : UpdatePhase → UpdateReport
report phase = record {
  phase = phase;
  version = some "2.8.0";
  progress = none;
  detail = none;
  kind = none;
  since = none;
}

abbrev station : String → ℕ → Option UpdateReport → SiteMember
station id n update = record {
  client_id = id;
  ip = units "203.0.113.9";
  lan = some (lan_at n);
  update = update;
  nudged_at = none;
  nudged_version = none;
}

abbrev first_to_wait : SiteMember
first_to_wait = station "a" 7 (some (report idle))

abbrev seeds : List SiteMember
seeds = station "b" 8 (some (report downloading)) ∷ station "c" 9 (some (report downloading)) ∷ []

two_seeds_are_enough : lan_decision first_to_wait "2.8.0" seeds none 1000 ≡ hold
unfolding lan_decision holds seeding site_key egress_key ipv4_number ipv4_text split_on join decimal
    octet_text units_eq units
two_seeds_are_enough = refl

ipv4_number_iff_example :
    (ipv4_number (units "10.0.0.9") ≡ some 0xa000009)
    ↔ ((0xa000009 < 2 ^ 32) × (units "10.0.0.9" ≡ ipv4_text 0xa000009))
ipv4_number_iff_example = ipv4_number_iff (units "10.0.0.9") 0xa000009

lan_decision-hold_iff_example : (lan_decision first_to_wait "2.8.0" seeds none 1000 ≡ hold) ↔ (
    ((site : List ℕ) × (site_key first_to_wait.ip first_to_wait.lan ≡ some site))
    × MustWait first_to_wait "2.8.0" seeds none 1000)
lan_decision-hold_iff_example = lan_decision-hold_iff first_to_wait "2.8.0" seeds none 1000

abbrev holder : List SiteMember
holder = station "b" 8 (some (report ready)) ∷ []

one_holder : 1 ≡ length (site_holders first_to_wait "2.8.0" holder 1000)
unfolding holds site_key egress_key ipv4_number ipv4_text split_on join decimal octet_text units_eq
    units
one_holder = refl

lan_peers-AreHolders_example :
    (length (lan_peers first_to_wait "2.8.0" holder 1000 (5 ∷ [])) ≤ 8)
    × ((1 ≤ length (lan_peers first_to_wait "2.8.0" holder 1000 (5 ∷ [])))
        ↔ AtLeast (IsHolder first_to_wait "2.8.0" 1000) 1 holder)
    × All
        (IsHolderAddress first_to_wait "2.8.0" holder 1000)
        (lan_peers first_to_wait "2.8.0" holder 1000 (5 ∷ []))
lan_peers-AreHolders_example =
    lan_peers-AreHolders first_to_wait "2.8.0" holder 1000 (5 ∷ []) 1 one_holder (omega arith)

abbrev socket : ℕ → SiteMember → Option ℕ → Device
socket n member since = record {
  socket = n;
  member = member;
  image_version = some "2.7.0";
  lan_held_since = since;
  last_seen = 4000000;
}

-- One workstation has waited for an hour, another one for less.
abbrev hub : Hub
hub = record {
  lan_sharing = some 1;
  sockets =
      socket 1 first_to_wait (some 400000)
      ∷ socket 2 (station "d" 10 none) (some 500000)
      ∷ socket 3 (station "b" 8 (some (report downloading))) none
      ∷ socket 4 (station "c" 9 (some (report downloading))) none
      ∷ [];
  alarm = none;
  commands = [];
  statuses = [];
}

abbrev offer : ReleaseOffer
offer = record {
  version = record {
    name = "2.8.0";
    key = record { core = record { major = 2; minor = 8; patch = 0 }; pre = none };
  };
  kind = feature;
  size_bytes = 1;
  classified_at = 1;
  support = none;
  gated = false;
  pilot_group = none;
  line_only = false;
  approved = false;
}

-- The release that the hub picks, of the one that is offered.
abbrev offered : Device → Option String
offered d = name_of_offer (release_nudge_target (offer ∷ []) d.member.update d.image_version none)

told_after_alarm : length (nudge_waiting offered hub 4000000).commands ≡ 1
unfolding nudge_waiting nudge_socket wait_for_site lan_decision holds seeding site_key egress_key
    ipv4_number ipv4_text split_on join decimal octet_text units_eq units release_nudge_target
    update_target_for workstation_offer security_release_for newest_offered installs_by_itself
    eligible_releases reachable highest_major newer_in_major is_newer compare_versions
    release_version version_key to_double
told_after_alarm = refl

waits_after_alarm :
    map wait_of (nudge_waiting offered hub 4000000).sockets ≡ none ∷ some 500000 ∷ none ∷ none ∷ []
unfolding nudge_waiting nudge_socket wait_for_site lan_decision holds seeding site_key egress_key
    ipv4_number ipv4_text split_on join decimal octet_text units_eq units release_nudge_target
    update_target_for workstation_offer security_release_for newest_offered installs_by_itself
    eligible_releases reachable highest_major newer_in_major is_newer compare_versions
    release_version version_key to_double
waits_after_alarm = refl

next_alarm : next_wait_end (nudge_waiting offered hub 4000000) ≡ some 4100000
unfolding next_wait_end nudge_waiting nudge_socket wait_for_site lan_decision holds seeding site_key
    egress_key ipv4_number ipv4_text split_on join decimal octet_text units_eq units
    release_nudge_target update_target_for workstation_offer security_release_for newest_offered
    installs_by_itself eligible_releases reachable highest_major newer_in_major is_newer
    compare_versions release_version version_key to_double
next_alarm = refl

nudge_waiting-ends_example :
    (map socket_of (nudge_waiting offered hub 4000000).sockets ≡ map socket_of hub.sockets)
    × All (IsFresh 4000000) (nudge_waiting offered hub 4000000).sockets
    × IsNextEnd 4000000
        (next_wait_end (nudge_waiting offered hub 4000000))
        (map wait_of (nudge_waiting offered hub 4000000).sockets)
nudge_waiting-ends_example = nudge_waiting-ends offered hub 4000000
