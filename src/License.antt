-- ===== src/License.antt =====
-- cloudflare-control/src/license.ts: the license that an organization runs under.
use labkiosk.Shared.{
  ℕ, ◌*◌, ◌-◌, Bool, false, not, ◌&&◌, Option, none, some, List, [], ◌∷◌, String, ◌==◌, string_eq,
  leb, if◌then◌else◌,
}

pub data LicensePlan : Type 0 where
  education evaluation subscriber commercial : LicensePlan

-- `LICENSE_PLANS`: each plan's id and label.
abbrev pub plan_id : LicensePlan → String
plan_id education = "education"
plan_id evaluation = "evaluation"
plan_id subscriber = "subscriber"
plan_id commercial = "commercial"

unfoldable pub plan_label : Option LicensePlan → String
plan_label (some education) = "Education"
plan_label (some evaluation) = "Trial"
plan_label (some subscriber) = "Subscription"
plan_label (some commercial) = "Custom"
plan_label none = "Free"

abbrev license_plans : List LicensePlan
license_plans = education ∷ evaluation ∷ subscriber ∷ commercial ∷ []

find_plan : String → List LicensePlan → Option LicensePlan
find_plan value [] = none
find_plan value (p ∷ ps) = if plan_id p == value then some p else find_plan value ps

-- `isLicensePlan(value) ? value : null`, on a column that holds a text or null.
unfoldable pub license_plan_of : Option String → Option LicensePlan
unfolding find_plan
license_plan_of none = none
license_plan_of (some value) = find_plan value license_plans

abbrev pub license_reminder_days : ℕ
license_reminder_days = 30

abbrev pub seconds_per_day : ℕ
seconds_per_day = 86400

pub record LicenseState : Type 0 where
  pub plan : Option LicensePlan
  pub expires_at : Option ℕ
  pub expired : Bool
  pub ending_soon : Bool

abbrev pub has_expired : Option ℕ → ℕ → Bool
has_expired none now = false
has_expired (some t) now = leb t now

-- `t - now` is computed only while `now < t`, so the subtraction is exact.
abbrev pub ends_soon : Option ℕ → ℕ → Bool
ends_soon none now = false
ends_soon (some t) now = not (leb t now) && leb (t - now) (license_reminder_days * seconds_per_day)

-- `licenseState`, from the two columns `license_plan` and `license_expires_at`.
unfoldable pub license_state : Option String → Option ℕ → ℕ → LicenseState
license_state license_plan license_expires_at now = record {
  plan = license_plan_of license_plan;
  expires_at = license_expires_at;
  expired = has_expired license_expires_at now;
  ending_soon = ends_soon license_expires_at now;
}
