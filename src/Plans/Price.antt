-- ===== src/Plans/Price.antt =====
-- plans.ts `quote` and `parseQuoteInput`.
use labkiosk.Shared.{ℕ, ◌*◌, ◌≤◌, ◌≡◌, refl, String, arith, ltb, if◌then◌else◌}
use labkiosk.Json.{Fields, property, whole, text, field, end}
use labkiosk.Plans.{
  BillingPeriod, month, year, Quote, quote, parse_quote_input, quoted, refused, contact_sales,
  sales_above,
}

-- The tax of a quote is 18% to the paisa, with nothing lost to rounding, and the total is what the
-- subtotal and the tax come to.
pub quote_exact :
    (period : BillingPeriod) (extra : ℕ)
    → ((quote period extra).gst * 100 ≡ (quote period extra).subtotal * 18)
      × ((quote period extra).total * 100 ≡ (quote period extra).subtotal * 118)
unfolding quote
quote_exact month extra = omega arith
quote_exact year extra = omega arith

-- Twelve months cost more than a year of the same workstations, and a year costs as much as ten.
pub quote_year_eq_ten_months :
    (extra : ℕ) → (quote year extra).total ≡ 10 * (quote month extra).total
unfolding quote
quote_year_eq_ten_months extra = omega arith

-- Whatever the request body, an accepted quote is the one that `quote` works out for its own period
-- and extra workstations, for at most the 200 workstations that are sold online.
pub parse_quote_input_sound :
    (body : Fields) (q : Quote)
    → parse_quote_input body ≡ quoted q
    → (q ≡ quote q.period q.extra_workstations) × (q.workstations ≤ sales_above)
unfolding parse_quote_input quote
parse_quote_input_sound body q h = ground arith

-- The word for a period in a request.
abbrev pub period_text : BillingPeriod → String
period_text month = "month"
period_text year = "year"

-- The request body that asks for a period and a number of extra workstations.
abbrev pub quote_body : BillingPeriod → ℕ → Fields
quote_body period extra =
    field "period" (text (period_text period)) (field "extraWorkstations" (whole extra) end)

-- A well-formed request is answered by its quote when it is for at most 155 extra workstations,
-- and is sent to sales otherwise.
pub parse_quote_input_complete :
    (period : BillingPeriod) (extra : ℕ)
    → parse_quote_input (quote_body period extra)
      ≡ (if ltb 155 extra then refused contact_sales else quoted (quote period extra))
unfolding parse_quote_input property
parse_quote_input_complete month extra = refl
parse_quote_input_complete year extra = refl
