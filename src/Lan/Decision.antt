-- ===== src/Lan/Decision.antt =====
-- cloudflare-control/src/lan_sharing.ts: which workstation of a site fetches a release and which one
-- waits, and whom it copies it from. Times of the hub are milliseconds, `since` is in seconds.
use Prim.Native.String.{String}
use labkiosk.Shared.{
  ℕ, ◌+◌, ◌*◌, ◌≤◌, ◌≡◌, ◌↔◌, refl, Bool, true, false, not, ◌&&◌, Option, none, some, List, ◌==◌,
  nat_eq, string_eq, leb, ltb, length, filter, any, option_beq, units_comparable, if◌then◌else◌,
  arith,
}
use mathlib.Core.Path.{subst}
use labkiosk.Lan.{LanReport, site_key}

pub data UpdatePhase : Type 0 where
  live idle checking downloading ready staged installing up_to_date error : UpdatePhase

pub data ReleaseKind : Type 0 where
  feature security : ReleaseKind

pub record UpdateReport : Type 0 where
  pub phase : UpdatePhase
  pub version : Option String
  pub progress : Option ℕ
  pub detail : Option String
  pub kind : Option ReleaseKind
  pub since : Option ℕ

pub record SiteMember : Type 0 where
  pub client_id : String
  pub ip : List ℕ
  pub lan : Option LanReport
  pub update : Option UpdateReport
  pub nudged_at : Option ℕ
  pub nudged_version : Option String

pub data Decision : Type 0 where
  go hold : Decision

abbrev lan_seeds_per_site : ℕ
lan_seeds_per_site = 2

abbrev lan_seed_start_ms : ℕ
lan_seed_start_ms = 5 * 60000

abbrev pub lan_hold_max_ms : ℕ
lan_hold_max_ms = 60 * 60000

abbrev lan_share_seconds : ℕ
lan_share_seconds = 48 * 60 * 60

abbrev pub is_verified : UpdatePhase → Bool
is_verified ready = true
is_verified staged = true
is_verified _ = false

-- `nowMs / 1000 - since < LAN_SHARE_SECONDS`
abbrev pub since_lately : Option ℕ → ℕ → Bool
since_lately none now = true
since_lately (some since) now = ltb now ((since + lan_share_seconds) * 1000)

abbrev pub update_holds : Option UpdateReport → String → ℕ → Bool
update_holds none version now = false
update_holds (some update) version now =
    is_verified update.phase
    && option_beq update.version (some version)
    && since_lately update.since now

unfoldable pub holds : SiteMember → String → ℕ → Bool
holds member version now = update_holds member.update version now

abbrev pub told_lately : Option ℕ → ℕ → Bool
told_lately none now = false
told_lately (some at) now = ltb now (at + lan_seed_start_ms)

abbrev pub just_told : SiteMember → String → ℕ → Bool
just_told member version now =
    option_beq member.nudged_version (some version) && told_lately member.nudged_at now

abbrev pub seeds_in : Option UpdatePhase → Option String → Bool → Bool → String → Bool
seeds_in (some downloading) of holding told version = option_beq of (some version)
seeds_in (some error) of holding told version = false
seeds_in phase of holding told version = not holding && told

abbrev pub phase_of : Option UpdateReport → Option UpdatePhase
phase_of none = none
phase_of (some update) = some update.phase

abbrev pub version_of : Option UpdateReport → Option String
version_of none = none
version_of (some update) = update.version

unfoldable pub seeding : SiteMember → String → ℕ → Bool
unfolding holds
seeding member version now =
    seeds_in (phase_of member.update) (version_of member.update) (holds member version now)
      (just_told member version now) version

abbrev pub at_site : SiteMember → List ℕ → SiteMember → Bool
at_site member site other =
    not (other.client_id == member.client_id)
    && option_beq (site_key other.ip other.lan) (some site)

abbrev pub neighbours : SiteMember → List ℕ → List SiteMember → List SiteMember
neighbours member site others = filter (at_site member site) others

-- `heldSince !== undefined && nowMs - heldSince >= LAN_HOLD_MAX_MS`
abbrev pub waited_long : Option ℕ → ℕ → Bool
waited_long none now = false
waited_long (some since) now = leb (since + lan_hold_max_ms) now

abbrev decide : Bool → ℕ → Bool → Decision
decide held seeds waited =
    if held then go else if ltb seeds lan_seeds_per_site then go else if waited then go else hold

abbrev decision_at :
    Option (List ℕ) → SiteMember → String → List SiteMember → Option ℕ → ℕ → Decision
decision_at none member version others held_since now = go
decision_at (some site) member version others held_since now =
    let near = neighbours member site others in
    decide (any (λ o. holds o version now) near) (length (filter (λ o. seeding o version now) near))
      (waited_long held_since now)

unfoldable pub lan_decision : SiteMember → String → List SiteMember → Option ℕ → ℕ → Decision
unfolding holds seeding
lan_decision member version others held_since now =
    decision_at (site_key member.ip member.lan) member version others held_since now

decide-hold_iff :
    (held : Bool) (seeds : ℕ) (waited : Bool)
    → (decide held seeds waited ≡ hold) ↔ ((held ≡ false) × (2 ≤ seeds) × (waited ≡ false))
decide-hold_iff true seeds waited = (λ h. cc, λ h. cc)
decide-hold_iff false seeds waited = (λ h. ground arith, λ h. ground arith)

some_inj {ℓ} : {A : Type ℓ} {a b : A} → some a ≡ some b → b ≡ a
some_inj e = cc

-- What the tests of the code say where a workstation waits.
abbrev pub MustHold : SiteMember → String → List SiteMember → Option ℕ → ℕ → List ℕ → Type 0
MustHold member version others held_since now site =
    (any (λ o. holds o version now) (neighbours member site others) ≡ false)
    × (2 ≤ length (filter (λ o. seeding o version now) (neighbours member site others)))
    × (waited_long held_since now ≡ false)

decision_at-hold_iff :
    (site : Option (List ℕ)) (member : SiteMember) (version : String) (others : List SiteMember)
    (held_since : Option ℕ) (now : ℕ)
    → (decision_at site member version others held_since now ≡ hold)
      ↔ ((key : List ℕ) × (site ≡ some key) × MustHold member version others held_since now key)
decision_at-hold_iff none member version others held_since now = (λ h. cc, λ (key, e, _). cc)
decision_at-hold_iff (some site) member version others held_since now =
    let (to, from) =
      decide-hold_iff (any (λ o. holds o version now) (neighbours member site others))
        (length (filter (λ o. seeding o version now) (neighbours member site others)))
        (waited_long held_since now) in
    (
      λ h. (site, refl, to h),
      λ (key, e, rest).
          from (subst (MustHold member version others held_since now) (some_inj e) rest),
    )

pub lan_decision-hold_lem :
    (member : SiteMember) (version : String) (others : List SiteMember) (held_since : Option ℕ)
    (now : ℕ)
    → (lan_decision member version others held_since now ≡ hold) ↔ (
        (site : List ℕ) × (site_key member.ip member.lan ≡ some site)
        × MustHold member version others held_since now site)
unfolding lan_decision
lan_decision-hold_lem member version others held_since now =
    decision_at-hold_iff (site_key member.ip member.lan) member version others held_since now
