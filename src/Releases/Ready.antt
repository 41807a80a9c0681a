-- ===== src/Releases/Ready.antt =====
-- Which workstation the command to install a release is sent to.
use Prim.Native.String.{String}
use labkiosk.Shared.{
  ◌≡◌, refl, Bool, true, false, not, ◌&&◌, Option, none, some, string_eq, option_beq, if◌then◌else◌,
}
use mathlib.Core.Path.{subst}
use labkiosk.Lan.Decision.{
  UpdatePhase, UpdateReport, live, checking, downloading, ready, staged, installing, error, idle,
  up_to_date,
}
use labkiosk.Releases.Offers.{ReleaseOffer}
use labkiosk.Releases.Updates.{
  LiveStatus, InstallRefusal, offline, is_ready_phase, refusal_by_phase, refusal_of_update,
  install_target_for, install_refusal,
}
use labkiosk.Releases.Install.{
  HubConfig, Answer, sends, skips, answer_with, install_answer, releases_of, group_of,
}

-- A workstation that is online and holds the version verified, which it does not run.
abbrev pub holds_ready : Option UpdateReport → String → Bool
holds_ready none version = false
holds_ready (some update) version =
    is_ready_phase update.phase && option_beq update.version (some version)

abbrev pub is_ready_for : Option LiveStatus → String → Bool
is_ready_for none version = false
is_ready_for (some status) version =
    status.online
    && (holds_ready status.update version && not (option_beq status.image_version (some version)))

refusal_by_phase-none :
    (phase : UpdatePhase) (runs held : Bool)
    → refusal_by_phase phase runs held ≡ none
    → ((is_ready_phase phase && held) && not runs) ≡ true
refusal_by_phase-none live runs held h = cc
refusal_by_phase-none installing runs held h = cc
refusal_by_phase-none idle true held h = cc
refusal_by_phase-none idle false held h = cc
refusal_by_phase-none checking true held h = cc
refusal_by_phase-none checking false held h = cc
refusal_by_phase-none downloading true held h = cc
refusal_by_phase-none downloading false held h = cc
refusal_by_phase-none ready true held h = cc
refusal_by_phase-none ready false true h = refl
refusal_by_phase-none ready false false h = cc
refusal_by_phase-none staged true held h = cc
refusal_by_phase-none staged false true h = cc
refusal_by_phase-none staged false false h = cc
refusal_by_phase-none up_to_date true held h = cc
refusal_by_phase-none up_to_date false held h = cc
refusal_by_phase-none error true held h = cc
refusal_by_phase-none error false held h = cc

update_lem :
    (update : Option UpdateReport) (image_version : Option String) (version : String)
    → refusal_of_update update image_version version ≡ none
    → (holds_ready update version && not (option_beq image_version (some version))) ≡ true
update_lem none image_version version h = cc
update_lem (some update) image_version version h =
    refusal_by_phase-none update.phase (option_beq image_version (some version))
      (option_beq update.version (some version)) h

same_version : {a b : String} → sends a ≡ sends b → a ≡ b
same_version e = cc

online_lem :
    (online : Bool) (refusal : Option InstallRefusal) (held : Bool)
    → (if online then refusal else some offline) ≡ none
    → (refusal ≡ none → held ≡ true)
    → (online && held) ≡ true
online_lem true refusal held h k = k h
online_lem false refusal held h k = cc

sends_lem :
    (refusal : Option InstallRefusal) (name version : String) (status : Option LiveStatus)
    → elim refusal as (λ x. Answer) [ none ↦ sends name | some reason ↦ skips reason ]
      ≡ sends version
    → (refusal ≡ none → is_ready_for status name ≡ true)
    → is_ready_for status version ≡ true
sends_lem none name version status h k =
    subst (λ v. is_ready_for status v ≡ true) (same_version h) (k refl)
sends_lem (some reason) name version status h k = cc

install_refusal-none :
    (status : Option LiveStatus) (version : String)
    → install_refusal status version ≡ none
    → is_ready_for status version ≡ true
unfolding install_refusal
install_refusal-none none version h = cc
install_refusal-none (some status) version h =
    online_lem status.online (refusal_of_update status.update status.image_version version)
      (holds_ready status.update version && not (option_beq status.image_version (some version))) h
      (update_lem status.update status.image_version version)

answer_with-ready :
    (target : Option ReleaseOffer) (status : Option LiveStatus) (version : String)
    → answer_with target status ≡ sends version
    → is_ready_for status version ≡ true
answer_with-ready none status version h = cc
answer_with-ready (some target) status version h =
    sends_lem (install_refusal status target.version.name) target.version.name version status h
      (install_refusal-none status target.version.name)

pub install_answer-ready :
    (config : Option HubConfig) (reports : String → Option LiveStatus) (id version : String)
    → install_answer config reports id ≡ sends version
    → is_ready_for (reports id) version ≡ true
unfolding install_answer
install_answer-ready config reports id version h =
    answer_with-ready (install_target_for (releases_of config) (reports id) (group_of config id))
      (reports id) version h
