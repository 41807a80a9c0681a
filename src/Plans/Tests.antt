-- ===== src/Plans/Tests.antt =====
-- Runs of the plans at concrete inputs.
use labkiosk.Shared.{◌*◌, ◌≤◌, ◌≡◌, ◌≢◌, refl, some, arith}
use labkiosk.Json.{text, field, end, property}
use labkiosk.Plans.{TenantPlan, entitlement, month, quote, parse_quote_input, quoted}
use labkiosk.Plans.Entitled.{entitlement_limit_antitone}
use labkiosk.Plans.Price.{quote_exact}

-- A subscription for 60 workstations that ends at second 5000.
abbrev subscribed : TenantPlan
subscribed = record {
  license_plan = some "subscriber";
  license_expires_at = some 5000;
  workstation_limit = 60;
  trial_started_at = some 100;
}

entitlement_limit_antitone_example :
    (entitlement subscribed 6000).limit ≤ (entitlement subscribed 4000).limit
entitlement_limit_antitone_example = entitlement_limit_antitone subscribed 4000 6000 (omega arith)

-- One month of 50 workstations: 2194 rupees and 18% tax.
quote_month : (quote month 5).total ≡ 258892
unfolding quote
quote_month = refl

quote_exact_example :
    ((quote month 5).gst * 100 ≡ (quote month 5).subtotal * 18)
    × ((quote month 5).total * 100 ≡ (quote month 5).subtotal * 118)
quote_exact_example = quote_exact month 5

-- A period that is not sold, with no number of extra workstations.
quote_week : parse_quote_input (field "period" (text "week") end) ≢ quoted (quote month 0)
unfolding parse_quote_input property
quote_week e = cc e
