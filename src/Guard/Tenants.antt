-- ===== src/Guard/Tenants.antt =====
-- guard.ts `resolveTenant`: the organization that a request acts on.
use labkiosk.Shared.{
  ℕ, ◌≡◌, inl, inr, ◌∙◌, sym, Bool, true, false, not, ◌&&◌, ◌||◌, Option, none, some, List, [], ◌∷◌,
  String, ◌==◌, string_eq, units_comparable, option_eq, eq_iff, ends_with, find, find-some,
  if◌then◌else◌, arith, Bool-cases, Option-cases, ap,
}
use labkiosk.Web.{Runtime}
use labkiosk.Guard.{Request, hostname, is_dev_host, host_subdomain, clean_subdomain}

pub data TenantStatus : Type 0 where
  active pending rejected suspended : TenantStatus

-- The columns of `tenants` that the guard reads.
pub record Tenant : Type 0 where
  pub id : String
  pub user_id : String
  pub subdomain : List ℕ
  pub chosen_subdomain : Option (List ℕ)
  pub custom_domain : Option (List ℕ)
  pub status : TenantStatus

pub data UserRole : Type 0 where
  super_admin org_admin : UserRole

pub record Session : Type 0 where
  pub user_id : String
  pub tenant_id : Option String
  pub role : UserRole

abbrev pub is_super_admin : UserRole → Bool
is_super_admin super_admin = true
is_super_admin org_admin = false

pub record Resolution : Type 0 where
  pub tenant : Option Tenant
  pub denied : Bool

abbrev pub has_subdomain : List ℕ → Tenant → Bool
has_subdomain name t = t.subdomain == name || t.chosen_subdomain == some name

abbrev pub has_domain : List ℕ → Tenant → Bool
has_domain domain t = t.custom_domain == some domain

abbrev pub allowed : Option Tenant → Resolution
allowed t = record { tenant = t; denied = false }

-- `session?.tenant_id`, which is null or an empty text where there is none.
abbrev pub own_tenant_id : Option Session → Option String
own_tenant_id none = none
own_tenant_id (some session) = elim session.tenant_id [
  | none ↦ none
  | some id ↦ if id == "" then none else some id
]

abbrev pub is_platform : Option Session → Bool
is_platform none = false
is_platform (some session) = is_super_admin session.role

-- `session?.tenant_id === candidate.id`
abbrev pub belongs_to : Option Session → String → Bool
belongs_to none id = false
belongs_to (some session) id = session.tenant_id == some id

-- `url.searchParams.get("tenant") ?? request.headers.get("x-tenant") ?? ""`
abbrev pub named_tenant : Request → List ℕ
named_tenant request = elim request.tenant_param [
  | some name ↦ name
  | none ↦ elim request.x_tenant [ some name ↦ name | none ↦ [] ]
]

session_id :
    (s : Session) (id own : String)
    → own_tenant_id (some s) ≡ some id
    → own ≡ id
    → belongs_to (some s) own ≡ true
session_id s id own h same = ground (arith, (eq_iff id own).1 (sym same))

module _ (runtime : Runtime) (tenants : List Tenant) where
  unfoldable pub find_tenant_by_subdomain : List ℕ → Option Tenant
  find_tenant_by_subdomain name = find (has_subdomain (runtime.to_lower_case name)) tenants

  unfoldable pub find_tenant_by_custom_domain : List ℕ → Option Tenant
  find_tenant_by_custom_domain domain =
      if domain == [] then none else find (has_domain (runtime.to_lower_case domain)) tenants

  unfoldable pub find_tenant_by_id : String → Option Tenant
  find_tenant_by_id id = find (λ t. t.id == id) tenants

  -- `!isDevHost(request) && (!baseDomain || (host !== baseDomain && !host.endsWith("." + baseDomain)))`
  abbrev pub may_be_custom : List ℕ → List ℕ → Bool
  may_be_custom host base =
      not (is_dev_host host)
      && (base == [] || (not (host == base) && not (ends_with (b'.' ∷ base) host)))

  abbrev pub custom_tenant : List ℕ → List ℕ → Option Tenant
  custom_tenant host base =
      if may_be_custom host base then find_tenant_by_custom_domain host else none

  abbrev pub override : Bool → Option Tenant → Option Session → Bool → Resolution
  override on_dev none session anonymous = allowed none
  override on_dev (some candidate) session anonymous =
      if on_dev || anonymous || is_platform session || belongs_to session candidate.id
      then allowed (some candidate)
      else record { tenant = none; denied = true }

  abbrev pub own_tenant : Option String → Resolution
  own_tenant none = allowed none
  own_tenant (some id) = allowed (find_tenant_by_id id)

  -- Steps 2 and 3: the override, or the session's own organization.
  pub without_host : List ℕ → Bool → Option Session → Bool → Resolution
  without_host requested on_dev session anonymous =
      if requested == []
      then own_tenant (own_tenant_id session)
      else override on_dev (find_tenant_by_subdomain requested) session anonymous

  unfoldable pub resolve_tenant : Request → Option Session → Bool → List ℕ → Resolution
  unfolding without_host find_tenant_by_subdomain find_tenant_by_custom_domain
  resolve_tenant request session anonymous base =
      let host = hostname runtime request in
      elim (host_subdomain runtime host base) [
        | some slug ↦ allowed (find_tenant_by_subdomain slug)
        | none ↦ elim (custom_tenant host base) [
          | some t ↦ allowed (some t)
          | none ↦
              without_host (clean_subdomain runtime (named_tenant request)) (is_dev_host host)
                session anonymous
        ]
      ]

  -- Why a request may act on an organization.
  pub data MayAct (request : Request) (session : Option Session) (anonymous : Bool) (base : List ℕ)
      (t : Tenant) : Type 0 where
    by_subdomain :
        (slug : List ℕ)
        → host_subdomain runtime (hostname runtime request) base ≡ some slug
        → has_subdomain (runtime.to_lower_case slug) t ≡ true
        → MayAct request session anonymous base t
    by_domain :
        has_domain (runtime.to_lower_case (hostname runtime request)) t ≡ true
        → is_dev_host (hostname runtime request) ≡ false
        → MayAct request session anonymous base t
    by_name :
        has_subdomain (runtime.to_lower_case (clean_subdomain runtime (named_tenant request))) t
          ≡ true
        → (is_dev_host (hostname runtime request)
            || anonymous
            || is_platform session
            || belongs_to session t.id)
          ≡ true
        → MayAct request session anonymous base t
    by_session : belongs_to session t.id ≡ true → MayAct request session anonymous base t

  override_lem :
      (on_dev : Bool) (o : Option Tenant) (session : Option Session) (anonymous : Bool) (t : Tenant)
      → (override on_dev o session anonymous).tenant ≡ some t
      → (o ≡ some t)
        × ((on_dev || anonymous || is_platform session || belongs_to session t.id) ≡ true)
  override_lem on_dev none session anonymous t h = cc
  override_lem on_dev (some candidate) session anonymous t h = ground arith

  custom_tenant_lem :
      (host base : List ℕ) (t : Tenant)
      → custom_tenant host base ≡ some t
      → (has_domain (runtime.to_lower_case host) t ≡ true) × (is_dev_host host ≡ false)
  unfolding find_tenant_by_custom_domain
  custom_tenant_lem host base t h =
      let hit = find-some (has_domain (runtime.to_lower_case host)) tenants t in ground (arith, hit)

  own_tenant_lem :
      (session : Option Session) (t : Tenant)
      → (own_tenant (own_tenant_id session)).tenant ≡ some t
      → belongs_to session t.id ≡ true
  unfolding find_tenant_by_id
  own_tenant_lem none t h = cc
  own_tenant_lem (some s) t h = elim (Option-cases (own_tenant_id (some s))) [
    | inl absent ↦ let wrong : none ≡ some t = rw absent at h in cc
    | inr (id, found) ↦
        let hit : find (λ t. t.id == id) tenants ≡ some t = rw (found, find_tenant_by_id) at h in
        let same = (eq_iff t.id id).0 (find-some (λ t. t.id == id) tenants t hit) in
        session_id s id t.id found same
  ]

  module _ (request : Request) (session : Option Session) (anonymous : Bool) (base : List ℕ) where
    without_host-MayAct :
        (t : Tenant)
        → (without_host
            (clean_subdomain runtime (named_tenant request))
            (is_dev_host (hostname runtime request))
            session
            anonymous).tenant
          ≡ some t
        → MayAct request session anonymous base t
    unfolding find_tenant_by_subdomain without_host
    without_host-MayAct t h =
        let requested = clean_subdomain runtime (named_tenant request) in
        let on_dev = is_dev_host (hostname runtime request) in
        elim (Bool-cases (requested == [])) [
          | inl blank ↦ by_session (own_tenant_lem session t (rw (blank, without_host) at h))
          | inr given ↦
              let found : (override on_dev (find_tenant_by_subdomain requested) session
                    anonymous).tenant
                  ≡ some t =
                rw (given, without_host) at h in
              let (hit, may) =
                override_lem on_dev (find_tenant_by_subdomain requested) session anonymous t
                  found in
              by_name (find-some (has_subdomain (runtime.to_lower_case requested)) tenants t hit)
                may
        ]

    -- An organization that a request acts on is one that its host names, one that it names itself and
    -- may name (from a development host, on a public route, as the platform's administrator, or from a
    -- session of that organization), or the session's own.
    pub resolve_tenant-MayAct :
        (t : Tenant)
        → (resolve_tenant request session anonymous base).tenant ≡ some t
        → MayAct request session anonymous base t
    unfolding find_tenant_by_subdomain resolve_tenant
    resolve_tenant-MayAct t h =
        let host = hostname runtime request in
        elim (Option-cases (host_subdomain runtime host base)) [
          | inr (slug, named) ↦
              let hit : find_tenant_by_subdomain slug ≡ some t = rw (named, resolve_tenant) at h in
              by_subdomain slug named
                (find-some (has_subdomain (runtime.to_lower_case slug)) tenants t hit)
          | inl plain ↦ elim (Option-cases (custom_tenant host base)) [
            | inr (custom, found) ↦
                let same : custom ≡ t =
                  (let e : some custom ≡ some t = rw (plain, found, resolve_tenant) at h in cc) in
                let (domain, public) = custom_tenant_lem host base t (found ∙ ap some same) in
                by_domain domain public
            | inl absent ↦ without_host-MayAct t (rw (plain, absent, resolve_tenant) at h)
          ]
        ]
