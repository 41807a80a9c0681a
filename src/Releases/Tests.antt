-- ===== src/Releases/Tests.antt =====
-- Runs of the choice of a release, and the theorems at concrete inputs.
use Prim.Native.String.{String}
use labkiosk.Shared.{
  not, ◌&&◌, ◌+◌, ◌==◌, string_eq, occurrences, All, Any, map, if◌then◌else◌, ℕ, ◌≡◌, ◌↔◌, ◌⊎◌, ◌≤◌,
  refl, true, false, Option, none, some, List, [], ◌∷◌, units, units_eq, trim, trim_start, is_space,
  any,
}
use labkiosk.Lan.{decimal}
use labkiosk.Lan.Decision.{ready, ReleaseKind, feature, security}
use labkiosk.Web.{split_on}
use labkiosk.Releases.Updates.{LiveStatus, install_refusal, install_target_for}
use labkiosk.Releases.Install.{
  HubConfig, is_client_id, selected, install_answer, install_update, skipped_id,
}
use labkiosk.Releases.Sends.{names, commanded, IsForReady, install_update-sorts}
use labkiosk.Releases.Rows.{IsRowFor}
use labkiosk.Releases.Permits.{IsPermitted, update_target_for-IsPermitted}
use labkiosk.Releases.{
  word, less, equal, Version, version_key, release_version, compare_versions, to_double,
}
use labkiosk.Releases.Total.{flip}
use labkiosk.Releases.Order.{is_later, compare_versions-total}
use labkiosk.Releases.Offers.{
  stable, ReleaseRow, Tables, ReleaseOffer, release_architectures, offers_in, offered_releases,
}
use labkiosk.Releases.Eligible.{
  newest_offered, is_newer, newer_in_major, highest_major, reachable, eligible_releases,
  security_release_for, workstation_offer, update_target_for,
}
use labkiosk.Releases.Choice.{MayTake}
use labkiosk.Releases.Target.{newer_than, is_line_fix, update_target_for-some}
use labkiosk.Releases.Latest.{update_target_for-none_iff}

abbrev core : ℕ → ℕ → ℕ → Version
core major minor patch = record {
  name = "";
  key = record { core = record { major = major; minor = minor; patch = patch }; pre = none };
}

candidate_before_release :
    compare_versions
      (record { name = ""; key = record { core = (core 2 6 0).key.core; pre = some [] } })
      (core 2 6 0)
    ≡ less
unfolding compare_versions
candidate_before_release = refl

-- A double does not tell these two apart.
rounded_identifier : to_double 9007199254740993 ≡ 9007199254740992
unfolding to_double
rounded_identifier = refl

abbrev row : String → ReleaseKind → Option ℕ → ReleaseRow
row version kind revoked_at = record {
  version = version;
  channel = some stable;
  kind = kind;
  size_bytes = 1;
  found_at = 5;
  classified_at = some 7;
  revoked_at = revoked_at;
  architectures = some "amd64";
}

abbrev db : Tables
db = record {
  releases =
      row "1.4.0" feature none
      ∷ row "2.0.0" feature none
      ∷ row "1.5.0-rc1" feature none
      ∷ row "3.0.0" feature none
      ∷ row "1.4.1" security (some 9)
      ∷ [];
  support = [];
  majors = [];
  grants = [];
}

abbrev name_of : Option ReleaseOffer → String
name_of none = ""
name_of (some r) = r.version.name

abbrev offers : List ReleaseOffer
offers = offered_releases db (some stable) none 100 "amd64"

newest_of_its_major : name_of (update_target_for offers (some (core 1 4 0)) none) ≡ "1.5.0-rc1"
unfolding update_target_for workstation_offer security_release_for eligible_releases reachable
    highest_major newer_in_major is_newer offered_releases offers_in compare_versions
    release_version version_key release_architectures split_on trim trim_start is_space units
    units_eq to_double decimal
newest_of_its_major = refl

then_the_next_major : name_of (update_target_for offers (some (core 1 5 0)) none) ≡ "2.0.0"
unfolding update_target_for workstation_offer security_release_for eligible_releases reachable
    highest_major newer_in_major is_newer offered_releases offers_in compare_versions
    release_version version_key release_architectures split_on trim trim_start is_space units
    units_eq to_double decimal
then_the_next_major = refl

compare_versions-total_example :
    ((compare_versions (core 1 4 0) (core 1 5 0) ≡ equal) ↔ ((core 1 4 0).key ≡ (core 1 5 0).key))
    × (compare_versions (core 1 5 0) (core 1 4 0)
        ≡ flip (compare_versions (core 1 4 0) (core 1 5 0)))
    × ((not (is_later (compare_versions (core 1 4 0) (core 1 5 0)))
          && not (is_later (compare_versions (core 1 5 0) (core 2 0 0)))
          && is_later (compare_versions (core 1 4 0) (core 2 0 0)))
        ≡ false)
compare_versions-total_example = compare_versions-total (core 1 4 0) (core 1 5 0) (core 2 0 0)

abbrev offer : ℕ → ReleaseOffer
offer minor = record {
  version = core 1 minor 0;
  kind = feature;
  size_bytes = 1;
  classified_at = 7;
  support = none;
  gated = false;
  pilot_group = none;
  line_only = false;
  approved = false;
}

update_target_for-some_example :
    (is_newer (offer 5).version (core 1 4 0) ≡ true)
    × MayTake (offer 5 ∷ offer 4 ∷ []) (core 1 4 0) none (offer 5)
    × (is_line_fix (core 1 4 0) (offer 5)
        ≡ any
            (is_line_fix (core 1 4 0))
            (eligible_releases (offer 5 ∷ offer 4 ∷ []) (some (core 1 4 0)) none))
unfolding update_target_for workstation_offer security_release_for eligible_releases reachable
    highest_major newer_in_major is_newer compare_versions
update_target_for-some_example =
    update_target_for-some (offer 5 ∷ offer 4 ∷ []) (core 1 4 0) none (offer 5) refl

update_target_for-none_iff_example :
    (update_target_for (offered_releases db (some stable) none 100 "amd64") (some (core 1 4 0)) none
      ≡ none)
    ↔ (any (newer_than (core 1 4 0)) (
          eligible_releases
            (offered_releases db (some stable) none 100 "amd64")
            (some (core 1 4 0))
            none)
        ≡ false)
update_target_for-none_iff_example =
    update_target_for-none_iff db (some stable) none 100 "amd64" (core 1 4 0) none

abbrev fetched : ReleaseOffer
fetched = record {
  version = record {
    name = "1.5.0-rc1";
    key = record { core = (core 1 5 0).key.core; pre = some (word (units "rc1") ∷ []) };
  };
  kind = feature;
  size_bytes = 1;
  classified_at = 7;
  support = none;
  gated = false;
  pilot_group = none;
  line_only = false;
  approved = false;
}

fetched_target : update_target_for offers (some (core 1 4 0)) none ≡ some fetched
unfolding update_target_for workstation_offer security_release_for eligible_releases reachable
    highest_major newer_in_major is_newer offered_releases offers_in compare_versions
    release_version version_key release_architectures split_on trim trim_start is_space units
    units_eq to_double decimal
fetched_target = refl

update_target_for-IsPermitted_example :
    Any (IsRowFor (some stable) "amd64" "1.5.0-rc1") db.releases
    × ((1 ≤ 1) ⊎ IsPermitted db none 1 none)
update_target_for-IsPermitted_example =
    update_target_for-IsPermitted db (some stable) none 100 "amd64" (core 1 4 0) none fetched
      fetched_target

abbrev named_offer : ReleaseOffer
named_offer = record {
  version = record { name = "1.5.0"; key = (core 1 5 0).key };
  kind = feature;
  size_bytes = 1;
  classified_at = 7;
  support = none;
  gated = false;
  pilot_group = none;
  line_only = false;
  approved = false;
}

abbrev holding : String → LiveStatus
holding version = record {
  online = true;
  image_version = some "1.4.0";
  update = some (record {
    phase = ready;
    version = some version;
    progress = none;
    detail = none;
    kind = some feature;
    since = none;
  });
}

abbrev reports : String → Option LiveStatus
reports id = if id == "PC-1" then some (holding "1.5.0") else none

abbrev config : HubConfig
config = record { releases = named_offer ∷ []; pilot_group = λ id. none }

abbrev request : Option (List String)
request = some ("PC-1" ∷ "PC-2" ∷ "PC-1" ∷ "pc 3" ∷ [])

one_is_sent : (install_update (some config) reports request).sent ≡ "PC-1" ∷ []
unfolding install_update selected install_answer install_refusal install_target_for newest_offered
    update_target_for workstation_offer security_release_for eligible_releases reachable
    highest_major newer_in_major is_newer compare_versions release_version version_key units
    split_on to_double decimal
one_is_sent = refl

one_is_skipped : map skipped_id (install_update (some config) reports request).skipped ≡ "PC-2" ∷ []
unfolding install_update selected install_answer install_refusal install_target_for newest_offered
    update_target_for workstation_offer security_release_for eligible_releases reachable
    highest_major newer_in_major is_newer compare_versions release_version version_key units
    split_on to_double decimal
one_is_skipped = refl

install_update-sorts_example :
    (occurrences "PC-1" (install_update (some config) reports request).sent
        + occurrences "PC-1" (map skipped_id (install_update (some config) reports request).skipped)
      ≡ (if names request "PC-1" && is_client_id "PC-1" then 1 else 0))
    × ((install_update (some config) reports request).sent
        ≡ commanded (install_update (some config) reports request).commands)
    × ((install_update (some config) reports request).versions
        ≡ map (λ b. b.version) (install_update (some config) reports request).commands)
    × All (IsForReady reports) (install_update (some config) reports request).commands
install_update-sorts_example = install_update-sorts (some config) reports request "PC-1"
