-- ===== src/Releases/Updates.antt =====
-- cloudflare-control/src/org_hub.ts: of which release a workstation is reminded, and what becomes of the
-- request to install one. The reports of the workstations online are a function of their identifiers.
use Prim.Native.String.{String}
use labkiosk.Shared.{
  Bool, true, false, ◌&&◌, Option, none, some, List, string_eq, option_beq, if◌then◌else◌,
}
use labkiosk.Lan.Decision.{
  UpdatePhase, live, checking, downloading, ready, staged, installing, error, ReleaseKind, feature,
  security, UpdateReport,
}
use labkiosk.Releases.{Version}
use labkiosk.Releases.Offers.{ReleaseOffer}
use labkiosk.Releases.Eligible.{
  running_version, newest_offered, installs_by_itself, update_target_for,
}

abbrev is_live_session : UpdatePhase → Bool
is_live_session live = true
is_live_session _ = false

abbrev is_fetching : UpdatePhase → Bool
is_fetching checking = true
is_fetching downloading = true
is_fetching installing = true
is_fetching _ = false

abbrev pub is_ready_phase : UpdatePhase → Bool
is_ready_phase ready = true
is_ready_phase _ = false

abbrev is_held_phase : UpdatePhase → Bool
is_held_phase ready = true
is_held_phase staged = true
is_held_phase _ = false

abbrev is_kind : ReleaseKind → Option ReleaseKind → Bool
is_kind feature (some feature) = true
is_kind security (some security) = true
is_kind _ _ = false

abbrev is_unsaid : Option ReleaseKind → Bool
is_unsaid none = true
is_unsaid (some kind) = false

abbrev pub name_of_offer : Option ReleaseOffer → Option String
name_of_offer none = none
name_of_offer (some r) = some r.version.name

abbrev nudge_for :
    UpdateReport → Option Version → Option ReleaseOffer → Option ReleaseOffer → Option ReleaseOffer
nudge_for update running none newest = none
nudge_for update running (some target) newest =
    if is_fetching update.phase
    then none
    else if is_held_phase update.phase && option_beq update.version (some target.version.name)
    then if is_ready_phase update.phase
        && is_kind target.kind update.kind
        && installs_by_itself target running
      then some target
      else none
    else if is_held_phase update.phase
        && is_unsaid update.kind
        && option_beq update.version (name_of_offer newest)
    then none
    else some target

unfoldable pub release_nudge_target :
    List ReleaseOffer → Option UpdateReport → Option String → Option String → Option ReleaseOffer
release_nudge_target releases none image_version group = none
release_nudge_target releases (some update) image_version group =
    if is_live_session update.phase
    then none
    else nudge_for update (running_version image_version)
        (update_target_for releases (running_version image_version) group)
        (newest_offered releases group)

pub record LiveStatus : Type 0 where
  pub online : Bool
  pub image_version : Option String
  pub update : Option UpdateReport

-- The reasons that an administrator is told.
pub data InstallRefusal : Type 0 where
  offline too_old live_session already_installing up_to_date installs_at_restart still_downloading
        download_failed not_downloaded no_release :
      InstallRefusal

abbrev pub refusal_by_phase : UpdatePhase → Bool → Bool → Option InstallRefusal
refusal_by_phase live runs holds_it = some live_session
refusal_by_phase installing runs holds_it = some already_installing
refusal_by_phase phase true holds_it = some up_to_date
refusal_by_phase staged false true = some installs_at_restart
refusal_by_phase downloading false holds_it = some still_downloading
refusal_by_phase checking false holds_it = some still_downloading
refusal_by_phase ready false true = none
refusal_by_phase error false holds_it = some download_failed
refusal_by_phase phase false holds_it = some not_downloaded

abbrev pub refusal_of_update : Option UpdateReport → Option String → String → Option InstallRefusal
refusal_of_update none image_version version = some too_old
refusal_of_update (some update) image_version version =
    refusal_by_phase update.phase (option_beq image_version (some version))
      (option_beq update.version (some version))

unfoldable pub install_refusal : Option LiveStatus → String → Option InstallRefusal
install_refusal none version = some offline
install_refusal (some status) version =
    if status.online
    then refusal_of_update status.update status.image_version version
    else some offline

abbrev or_this : Option ReleaseOffer → Option ReleaseOffer → Option ReleaseOffer
or_this none other = other
or_this (some r) other = some r

abbrev image_of : Option LiveStatus → Option String
image_of none = none
image_of (some status) = status.image_version

-- An updater that does not say the kind of what it holds, ready, and it is the newest release.
abbrev holds_newest : Option LiveStatus → Option ReleaseOffer → Bool
holds_newest (some status) (some newest) = elim status.update [
  | none ↦ false
  | some update ↦
      is_unsaid update.kind
      && is_ready_phase update.phase
      && option_beq update.version (some newest.version.name)
]
holds_newest _ _ = false

unfoldable pub install_target_for :
    List ReleaseOffer → Option LiveStatus → Option String → Option ReleaseOffer
install_target_for releases status group =
    let newest = newest_offered releases group in
    if holds_newest status newest
    then newest
    else or_this (update_target_for releases (running_version (image_of status)) group) newest
