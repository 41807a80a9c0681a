-- ===== src/Plans.antt =====
-- cloudflare-control/src/plans.ts: what an organization may run, and what a subscription costs.
-- Money is in paise; a `number` of the source is a whole one that a double holds exactly.
pub mod Entitled
pub mod Price
mod Tests
use labkiosk.Shared.{
  ℕ, ◌+◌, ◌-◌, ◌*◌, ◌/◌, min, Bool, true, false, Option, none, some, String, ◌==◌, nat_eq,
  string_eq, ltb, if◌then◌else◌,
}
use labkiosk.Json.{Json, Fields, property, undefined, whole, text}
use labkiosk.License.{
  LicensePlan, education, evaluation, subscriber, commercial, LicenseState, license_state,
}

-- `PRICING`
abbrev pub monthly : ℕ
monthly = 1999

abbrev pub yearly : ℕ
yearly = 19990

abbrev pub extra_monthly : ℕ
extra_monthly = 39

abbrev pub extra_yearly : ℕ
extra_yearly = 390

abbrev pub gst_percent : ℕ
gst_percent = 18

abbrev pub included_workstations : ℕ
included_workstations = 45

abbrev pub sales_above : ℕ
sales_above = 200

abbrev pub free_workstations : ℕ
free_workstations = 5

pub data PlanKind : Type 0 where
  free trial subscription school custom : PlanKind

-- `KIND_OF`; `school` is the kind "education".
abbrev pub kind_of : LicensePlan → PlanKind
kind_of evaluation = trial
kind_of subscriber = subscription
kind_of education = school
kind_of commercial = custom

-- The columns of `tenants` that the plan is read from.
pub record TenantPlan : Type 0 where
  pub license_plan : Option String
  pub license_expires_at : Option ℕ
  pub workstation_limit : ℕ
  pub trial_started_at : Option ℕ

pub record Entitlement : Type 0 where
  pub kind : PlanKind
  pub limit : ℕ
  pub expires_at : Option ℕ
  pub lapsed : Bool
  pub lapsed_from : Option PlanKind
  pub ending_soon : Bool

-- `Number(tenant.workstation_limit) || PRICING.freeWorkstations`
abbrev pub stored_limit : TenantPlan → ℕ
stored_limit t = if t.workstation_limit == 0 then free_workstations else t.workstation_limit

entitled : Option LicensePlan → LicenseState → ℕ → Entitlement
entitled none state stored = record {
  kind = free;
  limit = stored;
  expires_at = none;
  lapsed = false;
  lapsed_from = none;
  ending_soon = false;
}
entitled (some plan) state stored =
    if state.expired
    then record {
      kind = free;
      limit = min stored free_workstations;
      expires_at = state.expires_at;
      lapsed = true;
      lapsed_from = some (kind_of plan);
      ending_soon = false;
    }
    else record {
      kind = kind_of plan;
      limit = stored;
      expires_at = state.expires_at;
      lapsed = false;
      lapsed_from = none;
      ending_soon = state.ending_soon;
    }

unfoldable pub entitlement : TenantPlan → ℕ → Entitlement
unfolding entitled license_state
entitlement tenant now =
    let state = license_state tenant.license_plan tenant.license_expires_at now in
    entitled state.plan state (stored_limit tenant)

pub data TrialRefusal : Type 0 where
  already_had not_on_free : TrialRefusal

abbrev is_free : PlanKind → Bool
is_free free = true
is_free _ = false

-- `tenant.trial_started_at` is tested for truth: a time of 0 counts as none.
abbrev pub trial_started : Option ℕ → Bool
trial_started none = false
trial_started (some t) = ltb 0 t

unfoldable pub trial_refusal : TenantPlan → ℕ → Option TrialRefusal
unfolding entitlement
trial_refusal tenant now =
    if trial_started tenant.trial_started_at
    then some already_had
    else if is_free (entitlement tenant now).kind
    then none
    else some not_on_free

pub data BillingPeriod : Type 0 where
  month year : BillingPeriod

pub record Quote : Type 0 where
  pub period : BillingPeriod
  pub extra_workstations : ℕ
  pub workstations : ℕ
  pub base : ℕ
  pub extras : ℕ
  pub subtotal : ℕ
  pub gst : ℕ
  pub total : ℕ

abbrev pub max_online_extra : ℕ
max_online_extra = sales_above - included_workstations

abbrev pub base_price : BillingPeriod → ℕ
base_price month = monthly
base_price year = yearly

abbrev pub extra_price : BillingPeriod → ℕ
extra_price month = extra_monthly
extra_price year = extra_yearly

-- `Math.round(n / 100)`: halves go up.
abbrev pub round_percent : ℕ → ℕ
round_percent n = (n + 50) / 100

unfoldable pub quote : BillingPeriod → ℕ → Quote
quote period extra =
    let base = base_price period * 100 in
    let extras = extra * extra_price period * 100 in
    let subtotal = base + extras in
    let gst = round_percent (subtotal * gst_percent) in
    record {
      period = period;
      extra_workstations = extra;
      workstations = included_workstations + extra;
      base = base;
      extras = extras;
      subtotal = subtotal;
      gst = gst;
      total = subtotal + gst;
    }

pub data QuoteError : Type 0 where
  bad_period bad_extra contact_sales : QuoteError

pub data QuoteResult : Type 0 where
  quoted : Quote → QuoteResult
  refused : QuoteError → QuoteResult

parse_period : Json → Option BillingPeriod
parse_period (text s) = if s == "month" then some month else if s == "year" then some year else none
parse_period _ = none

parse_extra : Json → Option ℕ
parse_extra undefined = some 0
parse_extra (whole n) = some n
parse_extra _ = none

abbrev quote_within : BillingPeriod → ℕ → QuoteResult
quote_within period extra =
    if ltb max_online_extra extra then refused contact_sales else quoted (quote period extra)

abbrev quote_extra : BillingPeriod → Option ℕ → QuoteResult
quote_extra period none = refused bad_extra
quote_extra period (some extra) = quote_within period extra

abbrev quote_period : Option BillingPeriod → Option ℕ → QuoteResult
quote_period none extra = refused bad_period
quote_period (some period) extra = quote_extra period extra

unfoldable pub parse_quote_input : Fields → QuoteResult
unfolding parse_period parse_extra
parse_quote_input body =
    quote_period (parse_period (property body "period"))
      (parse_extra (property body "extraWorkstations"))
