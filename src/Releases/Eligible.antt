-- ===== src/Releases/Eligible.antt =====
-- cloudflare-control/src/releases.ts: which of an organization's releases a workstation may take.
use Prim.Native.String.{String}
use labkiosk.Shared.{
  ℕ, Bool, true, false, not, ◌&&◌, ◌||◌, Option, none, some, List, [], ◌∷◌, map, min, ◌==◌, nat_eq,
  string_eq, leb, ltb, any, filter, find, option_beq, if◌then◌else◌,
}
use labkiosk.Releases.{Comparison, greater, Version, release_version, compare_versions}
use labkiosk.Releases.Offers.{
  ReleaseOffer, is_security, is_end_of_life, is_security_only, same_line, major_of,
}
use labkiosk.Releases.Majors.{has_name}

-- What is known of the image that a workstation runs.
abbrev pub running_version : Option String → Option Version
running_version none = none
running_version (some running) = release_version running

abbrev pub is_greater : Comparison → Bool
is_greater greater = true
is_greater _ = false

unfoldable pub is_newer : Version → Version → Bool
unfolding compare_versions
is_newer a b = is_greater (compare_versions a b)

-- An unknown image is of no line, and of a major below all.
abbrev on_line : Option Version → Version → Bool
on_line none v = false
on_line (some running) v = same_line v running

abbrev on_major : Option Version → Version → Bool
on_major none v = false
on_major (some running) v = major_of v == major_of running

abbrev pub above : Option Version → Version → Bool
above none v = true
above (some running) v = ltb (major_of running) (major_of v)

abbrev pub is_supported : Option Version → ReleaseOffer → Bool
is_supported running r =
    not (is_end_of_life r.support)
    && not (r.line_only && not (on_line running r.version))
    && not (
        is_security_only r.support
        && (not (is_security r.kind) || not (on_major running r.version)))

-- `r.pilotGroup && group !== null && r.pilotGroup === group`
abbrev pub is_pilot : Option String → Option String → Bool
is_pilot pilot_group none = false
is_pilot pilot_group (some group) = has_name pilot_group && option_beq pilot_group (some group)

abbrev pub is_allowed : Option Version → Option String → ReleaseOffer → Bool
is_allowed running group r =
    not (r.gated && above running r.version && not (is_pilot r.pilot_group group))

abbrev pub least : ℕ → List ℕ → ℕ
least m [] = m
least m (n ∷ ns) = least (min m n) ns

abbrev pub next_major : ℕ → List ℕ → ℕ
next_major major [] = major
next_major major (m ∷ ms) = least m ms

abbrev pub version_of_offer : ReleaseOffer → Version
version_of_offer r = r.version

-- The majors above the one that runs.
abbrev pub higher_majors : Version → List ReleaseOffer → List ℕ
higher_majors running releases =
    filter (λ m. ltb (major_of running) m) (map (λ r. major_of r.version) releases)

unfoldable pub newer_in_major : Version → ReleaseOffer → Bool
unfolding is_newer
newer_in_major running r = major_of r.version == major_of running && is_newer r.version running

abbrev pub major_limit : Bool → ℕ → List ℕ → ℕ
major_limit true major higher = major
major_limit false major higher = next_major major higher

unfoldable pub highest_major : Version → List ReleaseOffer → List ReleaseOffer → ℕ
unfolding newer_in_major
highest_major running releases choices =
    major_limit (any (newer_in_major running) choices) (major_of running)
      (higher_majors running releases)

unfoldable pub reachable :
    Option Version → List ReleaseOffer → List ReleaseOffer → List ReleaseOffer
unfolding highest_major
reachable none releases choices = choices
reachable (some running) releases choices =
    filter (λ r. leb (major_of r.version) (highest_major running releases choices)) choices

unfoldable pub eligible_releases :
    List ReleaseOffer → Option Version → Option String → List ReleaseOffer
unfolding reachable
eligible_releases releases running group =
    let open_to = filter (is_supported running) releases in
    reachable running open_to (filter (is_allowed running group) open_to)

abbrev pub first : List ReleaseOffer → Option ReleaseOffer
first [] = none
first (r ∷ rest) = some r

unfoldable pub newest_offered : List ReleaseOffer → Option String → Option ReleaseOffer
unfolding eligible_releases
newest_offered releases group = first (eligible_releases releases none group)

abbrev pub is_security_update : Version → ReleaseOffer → Bool
is_security_update running r =
    is_security r.kind && same_line r.version running && is_newer r.version running

unfoldable pub security_release_for :
    List ReleaseOffer → Option Version → Option String → Option ReleaseOffer
unfolding eligible_releases is_newer
security_release_for releases none group = none
security_release_for releases (some running) group =
    find (is_security_update running) (eligible_releases releases (some running) group)

unfoldable pub installs_by_itself : ReleaseOffer → Option Version → Bool
unfolding is_newer
installs_by_itself release none = false
installs_by_itself release (some running) =
    is_newer release.version running
    && (if is_security release.kind
        then same_line release.version running
        else major_of release.version == major_of running
          || (ltb (major_of running) (major_of release.version) && release.approved))

pub record WorkstationOffer : Type 0 where
  pub release : Option ReleaseOffer
  pub security : Option ReleaseOffer

unfoldable pub workstation_offer :
    List ReleaseOffer → Option Version → Option String → WorkstationOffer
unfolding eligible_releases security_release_for
workstation_offer releases running group = record {
  release = first (eligible_releases releases running group);
  security = security_release_for releases running group;
}

abbrev pub or_else_offer : Option ReleaseOffer → Option ReleaseOffer → Option ReleaseOffer
or_else_offer none other = other
or_else_offer (some r) other = some r

abbrev pub if_newer : Version → Option ReleaseOffer → Option ReleaseOffer
if_newer running none = none
if_newer running (some r) = if is_newer r.version running then some r else none

unfoldable pub update_target_for :
    List ReleaseOffer → Option Version → Option String → Option ReleaseOffer
unfolding workstation_offer is_newer
update_target_for releases none group = none
update_target_for releases (some running) group =
    let offer = workstation_offer releases (some running) group in
    if_newer running (or_else_offer offer.security offer.release)
