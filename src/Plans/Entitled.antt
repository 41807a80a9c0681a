-- ===== src/Plans/Entitled.antt =====
-- plans.ts `entitlement`: what a plan gives, by the clock.
use labkiosk.Shared.{ℕ, ◌≤◌, arith}
use labkiosk.Plans.{TenantPlan, entitlement}

-- With no change to what is recorded, a later time never licenses more workstations.
pub entitlement_limit_antitone :
    (tenant : TenantPlan) (now later : ℕ)
    → now ≤ later
    → (entitlement tenant later).limit ≤ (entitlement tenant now).limit
unfolding entitlement
entitlement_limit_antitone tenant now later h = ground arith
