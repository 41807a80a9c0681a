-- ===== src/Guard/Tests.antt =====
-- Requests to an organization's console, from pages of this site and of others, and with a device's
-- token.
use labkiosk.Shared.{
  ℕ, ◌<◌, ◌≡◌, ◌↔◌, ◌⊎◌, refl, true, false, ◌||◌, Option, none, some, List, [], ◌∷◌, ◌++◌, ◌==◌,
  units, units_eq, units_comparable, includes_unit, arith, trim,
}
use labkiosk.Web.{Runtime}
use labkiosk.Guard.{
  Request, hostname, clean_base, clean_subdomain, host_subdomain, is_ip_literal, is_reserved_name,
}
use labkiosk.Guard.Hosts.{host_subdomain_anchored}
use labkiosk.Guard.Tenants.{
  Tenant, active, Session, org_admin, resolve_tenant, MayAct, resolve_tenant-MayAct,
}
use labkiosk.Guard.Access.{require_tenant_permission, TenantUser, listed}
use labkiosk.Guard.Access.Permitted.{require_tenant_permission_iff, MayUse}
use labkiosk.Guard.Sites.{
  reject_cross_site_mutation, reject_cross_site_socket, IsMissing, IsOwnPage, cross_site_refused,
}
use labkiosk.Guard.Devices.{DeviceToken, require_device, device, token_of}
use labkiosk.Guard.Devices.Trust.{World, Event, request, table, run, step, let_in_recently, asked}
use labkiosk.Guard.Devices.Vouched.{IsSound, VouchedFor}

abbrev host_text : List ℕ
host_text = units "lab.labkiosk.org"

abbrev origin_text : List ℕ
origin_text = units "https://lab.labkiosk.org"

-- A browser's `URL` on the one Origin of these tests.
abbrev runtime : Runtime
runtime = record {
  to_lower_case = λ s. s;
  parse_url = λ s. some (record { protocol = units "https:"; hostname = host_text; href = s });
}

lab_slug : host_subdomain runtime host_text (units "labkiosk.org") ≡ some (units "lab")
unfolding host_subdomain units trim units_eq
lab_slug = refl

host_subdomain_anchored_example :
    (label : List ℕ) × (host_text ≡ label ++ b'.' ∷ clean_base runtime (units "labkiosk.org"))
    × (includes_unit b'.' label ≡ false)
    × (units "lab" ≡ clean_subdomain runtime label)
    × ((units "lab" == []) ≡ false)
    × (is_reserved_name (units "lab") ≡ false)
    × (is_ip_literal host_text ≡ false)
unfolding units
host_subdomain_anchored_example =
    host_subdomain_anchored runtime host_text b'l' (units "abkiosk.org") (units "lab") lab_slug

abbrev page : Request
page = record {
  url = origin_text;
  method = units "POST";
  host = some host_text;
  origin = some origin_text;
  x_tenant = none;
  tenant_param = none;
  authorization = none;
}

abbrev lab : Tenant
lab = record {
  id = "lab";
  user_id = "ann";
  subdomain = units "lab";
  chosen_subdomain = none;
  custom_domain = none;
  status = active;
}

abbrev bob : Session
bob = record { user_id = "bob"; tenant_id = some "lab"; role = org_admin }

lab_found :
    (resolve_tenant runtime (lab ∷ []) page (some bob) false (units "labkiosk.org")).tenant
    ≡ some lab
unfolding resolve_tenant hostname host_subdomain units trim units_eq
lab_found = refl

resolve_tenant-MayAct_example :
    MayAct runtime (lab ∷ []) page (some bob) false (units "labkiosk.org") lab
resolve_tenant-MayAct_example =
    resolve_tenant-MayAct runtime (lab ∷ []) page (some bob) false (units "labkiosk.org") lab
      lab_found

abbrev users : List TenantUser
users =
    record {
      tenant_id = "lab";
      user_id = "bob";
      is_org_admin = false;
      permissions = some (listed (some "broadcast" ∷ []));
    }
    ∷ []

require_tenant_permission_iff_example :
    (require_tenant_permission (lab ∷ []) users (some bob) (some lab) "broadcast" ≡ none)
    ↔ MayUse (lab ∷ []) users bob.role bob lab "broadcast"
require_tenant_permission_iff_example =
    require_tenant_permission_iff (lab ∷ []) users bob lab "broadcast"

post_page : (page.method == units "POST" || page.method == units "DELETE") ≡ true
unfolding units units_eq
post_page = refl

mutation_passes : reject_cross_site_mutation runtime page true (units "labkiosk.org") ≡ false
unfolding reject_cross_site_mutation hostname units units_eq
mutation_passes = refl

socket_passes : reject_cross_site_socket runtime page (units "labkiosk.org") ≡ false
unfolding reject_cross_site_socket hostname units units_eq
socket_passes = refl

cross_site_refused_example :
    (IsMissing runtime page.origin ⊎ IsOwnPage runtime page (units "labkiosk.org") page.origin)
    × IsOwnPage runtime page (units "labkiosk.org") page.origin
cross_site_refused_example =
    cross_site_refused runtime page page (units "labkiosk.org") post_page mutation_passes
      socket_passes

abbrev hash : List ℕ → List ℕ
hash token = token

abbrev machine : DeviceToken
machine = record {
  id = "d1";
  token_hash = units "secret";
  tenant_id = "lab";
  client_id = "pc-1";
  last_used_at = 0;
  revoked = false;
}

abbrev fresh_world : World
fresh_world = record { cache = []; rows = machine ∷ []; log = [] }

fresh_world-IsSound : IsSound fresh_world.cache fresh_world.log
fresh_world-IsSound = record { within = omega arith; backed = tt }

abbrev bearer_header : Option (List ℕ)
bearer_header = some (units "Bearer secret")

-- The token is presented, and the row is revoked.
abbrev events : List Event
events = request bearer_header 1000 1 ∷ table (record machine { revoked = true } ∷ []) ∷ []

still_let_in :
    (require_device hash
      (run hash fresh_world events).cache
      (run hash fresh_world events).rows
      bearer_header
      59000
      59).answer
    ≡ device machine
unfolding run step require_device units units_eq trim
still_let_in = refl

let_in_recently_example :
    (token : List ℕ) × (until : ℕ) × (token_of bearer_header ≡ some token)
    × (59000 < until)
    × VouchedFor token machine until (asked hash (run hash fresh_world events) (some token) 59000)
let_in_recently_example =
    let_in_recently hash fresh_world events bearer_header 59000 59 machine fresh_world-IsSound
      still_let_in
