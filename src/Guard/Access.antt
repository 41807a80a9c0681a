-- ===== src/Guard/Access.antt =====
-- guard.ts `requireSuperAdmin`, `requireTenantAdmin` and `requireTenantPermission`, demo.ts
-- `isDemoTenant` and db.ts `getTenantUserPermissions`: who may open an organization's console.
mod Given
pub mod Permitted
use labkiosk.Shared.{
  ℕ, ◌≡◌, Bool, true, false, not, ◌&&◌, ◌||◌, Option, none, some, List, [], ◌∷◌, String, ◌==◌,
  string_eq, units_comparable, option_eq, units, length, take, find, any, among, if◌then◌else◌,
}
use labkiosk.Guard.{demo_slugs}
use labkiosk.Guard.Tenants.{
  Tenant, TenantStatus, active, pending, rejected, suspended, Session, UserRole, super_admin,
  org_admin,
}

pub data Refusal : Type 0 where
  sign_in_needed no_tenant not_super_admin real_tenant other_tenant not_approved : Refusal
  no_permission : String → Refusal
  -- What `permissions` holds has no `includes`: the TypeError.
  no_includes : Refusal

unfoldable pub is_demo_tenant : Tenant → String → Bool
unfolding units
is_demo_tenant t super_admin_id = among demo_slugs t.subdomain && t.user_id == super_admin_id

pub require_super_admin_of : UserRole → Option Refusal
require_super_admin_of super_admin = none
require_super_admin_of org_admin = some not_super_admin

unfoldable pub require_super_admin : Option Session → Option Refusal
unfolding require_super_admin_of
require_super_admin none = some sign_in_needed
require_super_admin (some session) = require_super_admin_of session.role

abbrev pub is_approved : TenantStatus → Bool
is_approved pending = false
is_approved rejected = false
is_approved active = true
is_approved suspended = true

abbrev admin_of : UserRole → Session → Tenant → Option Refusal
admin_of super_admin session t = if is_demo_tenant t session.user_id then none else some real_tenant
admin_of org_admin session t =
    if not (session.tenant_id == some t.id)
    then some other_tenant
    else if is_approved t.status
    then none
    else some not_approved

unfoldable pub require_tenant_admin : Option Session → Option Tenant → Option Refusal
unfolding is_demo_tenant
require_tenant_admin none tenant = some sign_in_needed
require_tenant_admin (some session) none = some no_tenant
require_tenant_admin (some session) (some t) = admin_of session.role session t

-- What the JSON of `permissions` stands for: an array, in which `none` is an element that is no text,
-- a text, or another value.
pub data Permissions : Type 0 where
  listed : List (Option String) → Permissions
  plain : List ℕ → Permissions
  no_list : Permissions

-- A row of `tenant_users`; `permissions` is `none` where it is NULL or not JSON.
pub record TenantUser : Type 0 where
  pub tenant_id : String
  pub user_id : String
  pub is_org_admin : Bool
  pub permissions : Option Permissions

abbrev pub is_user : String → String → TenantUser → Bool
is_user tenant_id user_id u = u.tenant_id == tenant_id && u.user_id == user_id

abbrev or_no_permissions : Option Permissions → Permissions
or_no_permissions none = listed []
or_no_permissions (some permissions) = permissions

abbrev permissions_of : Option TenantUser → Permissions
permissions_of none = listed []
permissions_of (some u) =
    if u.is_org_admin then listed (some "*" ∷ []) else or_no_permissions u.permissions

-- `text.includes(part)`
abbrev includes_text : List ℕ → List ℕ → Bool
includes_text part [] = part == []
includes_text part (c ∷ cs) = take (length part) (c ∷ cs) == part || includes_text part cs

abbrev includes_element : String → List (Option String) → Bool
includes_element permission elements = any (λ e. e == some permission) elements

abbrev unless_either : Bool → Bool → String → Option Refusal
unless_either given all permission =
    if not given && not all then some (no_permission permission) else none

-- `!perms.includes(permission) && !perms.includes("*")`
unfoldable pub refusal_under : Permissions → String → Option Refusal
refusal_under (listed elements) permission =
    unless_either (includes_element permission elements) (includes_element "*" elements) permission
refusal_under (plain text) permission =
    unless_either (includes_text (units permission) text) (includes_text (units "*") text)
      permission
refusal_under no_list permission = some no_includes

abbrev owns : Option Tenant → String → Bool
owns none user_id = false
owns (some t) user_id = t.user_id == user_id

module _ (tenants : List Tenant) (users : List TenantUser) where
  unfoldable pub get_tenant_user_permissions : String → String → Permissions
  get_tenant_user_permissions tenant_id user_id =
      if owns (find (λ t. t.id == tenant_id) tenants) user_id
      then listed (some "*" ∷ [])
      else permissions_of (find (is_user tenant_id user_id) users)

  abbrev permitted : UserRole → Session → Tenant → String → Option Refusal
  permitted super_admin session t permission = none
  permitted org_admin session t permission =
      if t.user_id == session.user_id
      then none
      else refusal_under (get_tenant_user_permissions t.id session.user_id) permission

  abbrev permitted_in : Option Session → Option Tenant → String → Option Refusal
  permitted_in none tenant permission = none
  permitted_in (some session) none permission = none
  permitted_in (some session) (some t) permission = permitted session.role session t permission

  unfoldable pub require_tenant_permission :
      Option Session → Option Tenant → String → Option Refusal
  unfolding get_tenant_user_permissions
  require_tenant_permission session tenant permission = elim (require_tenant_admin session tenant) [
    | some refusal ↦ some refusal
    | none ↦ permitted_in session tenant permission
  ]
