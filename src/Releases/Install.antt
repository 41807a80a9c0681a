-- ===== src/Releases/Install.antt =====
-- cloudflare-control/src/org_hub.ts `installUpdate`: every workstation that was selected is sent the
-- command or is named with a reason.
use Prim.Native.String.{String}
use labkiosk.Shared.{
  ℕ, Bool, true, false, not, ◌&&◌, ◌||◌, Option, none, some, List, [], ◌∷◌, ◌++◌, map, ◌==◌,
  string_eq, nat_eq, leb, length, all, filter, units, is_digit, if◌then◌else◌,
}
use labkiosk.Releases.Offers.{ReleaseOffer}
use labkiosk.Releases.Updates.{
  LiveStatus, InstallRefusal, no_release, install_target_for, install_refusal,
}

pub record HubConfig : Type 0 where
  pub releases : List ReleaseOffer
  pub pilot_group : String → Option String

-- `/^[A-Z0-9][A-Z0-9_-]{0,63}$/`
abbrev is_upper_or_digit : ℕ → Bool
is_upper_or_digit c = is_digit c || (leb b'A' c && leb c b'Z')

abbrev starts_well : List ℕ → Bool
starts_well [] = false
starts_well (c ∷ cs) = is_upper_or_digit c

abbrev pub is_client_id : String → Bool
is_client_id id =
    starts_well (units id)
    && all (λ c. is_upper_or_digit c || c == b'_' || c == b'-') (units id)
    && leb (length (units id)) 64

-- `Array.from(new Set(ids))`
abbrev pub unique_ids : List String → List String
unique_ids [] = []
unique_ids (id ∷ ids) = id ∷ filter (λ x. not (x == id)) (unique_ids ids)

-- The workstations that the request names, its items as `String` writes them; none where it has no array.
unfoldable pub selected : Option (List String) → List String
selected none = []
selected (some ids) = filter is_client_id (unique_ids ids)

-- The version that a workstation is sent for, or why it is sent for none.
pub data Answer : Type 0 where
  sends : String → Answer
  skips : InstallRefusal → Answer

abbrev pub releases_of : Option HubConfig → List ReleaseOffer
releases_of none = []
releases_of (some config) = config.releases

abbrev pub group_of : Option HubConfig → String → Option String
group_of none id = none
group_of (some config) id = config.pilot_group id

abbrev pub answer_with : Option ReleaseOffer → Option LiveStatus → Answer
answer_with none status = skips no_release
answer_with (some target) status = elim (install_refusal status target.version.name) [
  | none ↦ sends target.version.name
  | some reason ↦ skips reason
]

unfoldable pub install_answer : Option HubConfig → (String → Option LiveStatus) → String → Answer
install_answer config live id =
    answer_with (install_target_for (releases_of config) (live id) (group_of config id)) (live id)

pub record Batch : Type 0 where
  pub version : String
  pub targets : List String

pub record Skipped : Type 0 where
  pub client_id : String
  pub reason : InstallRefusal

pub record Sorted : Type 0 where
  pub by_version : List Batch
  pub skipped : List Skipped

abbrev pub add_to : String → String → List Batch → List Batch
add_to version id [] = record { version = version; targets = id ∷ [] } ∷ []
add_to version id (b ∷ bs) =
    let rest = add_to version id bs in
    if b.version == version
    then record { version = b.version; targets = b.targets ++ id ∷ [] } ∷ bs
    else b ∷ rest

abbrev pub sort_in : Answer → String → Sorted → Sorted
sort_in (sends version) id s = record {
  by_version = add_to version id s.by_version;
  skipped = s.skipped;
}
sort_in (skips reason) id s = record {
  by_version = s.by_version;
  skipped = s.skipped ++ record { client_id = id; reason = reason } ∷ [];
}

abbrev pub sort_all : (String → Answer) → List String → Sorted → Sorted
sort_all answers [] s = s
sort_all answers (id ∷ ids) s = sort_all answers ids (sort_in (answers id) id s)

-- `[...byVersion.values()].flat()`
abbrev pub sent_in : List Batch → List String
sent_in [] = []
sent_in (b ∷ bs) = b.targets ++ sent_in bs

pub record Installed : Type 0 where
  pub sent : List String
  pub skipped : List Skipped
  pub versions : List String
  pub commands : List Batch

abbrev version_of_batch : Batch → String
version_of_batch b = b.version

-- Each batch is one `install-update` command.
unfoldable pub install_update :
    Option HubConfig → (String → Option LiveStatus) → Option (List String) → Installed
unfolding selected install_answer
install_update config live raw =
    let s =
      sort_all (install_answer config live) (selected raw)
        (record { by_version = []; skipped = [] }) in
    record {
      sent = sent_in s.by_version;
      skipped = s.skipped;
      versions = map version_of_batch s.by_version;
      commands = s.by_version;
    }

abbrev pub skipped_id : Skipped → String
skipped_id s = s.client_id

abbrev pub is_sent : Answer → Bool
is_sent (sends version) = true
is_sent (skips reason) = false
