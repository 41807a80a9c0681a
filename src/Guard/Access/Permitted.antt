-- ===== src/Guard/Access/Permitted.antt =====
-- guard.ts `requireTenantPermission`: which session may use an organization's console for what.
use labkiosk.Shared.{
  ◌≡◌, ◌↔◌, ◌⊎◌, inl, inr, refl, Bool, true, false, ◌&&◌, Option, none, some, List, [], ◌∷◌, String,
  ◌==◌, string_eq, units_comparable, option_eq, option_beq_iff, find, IsAmong, among_iff,
  if◌then◌else◌, Bool-cases, arith,
}
use labkiosk.Guard.Tenants.{
  Tenant, TenantStatus, active, pending, rejected, suspended, Session, UserRole, super_admin,
  org_admin,
}
use labkiosk.Guard.Access.Given.{IsGivenIn, IsAllowedBy, IsOwnedBy, refusal_under-none}
use labkiosk.Guard.Access.{
  Refusal, is_demo_tenant, is_approved, admin_of, require_tenant_admin, Permissions, listed,
  TenantUser, permissions_of, or_no_permissions, owns, refusal_under, get_tenant_user_permissions,
  permitted, require_tenant_permission,
}

everything : (permission : String) → refusal_under (listed (some "*" ∷ [])) permission ≡ none
everything permission = (refusal_under-none (listed (some "*" ∷ [])) permission).1 (inr (inl refl))

or_no_permissions_iff :
    (o : Option Permissions) (permission : String)
    → (refusal_under (or_no_permissions o) permission ≡ none) ↔ IsGivenIn o permission
or_no_permissions_iff none permission = (
  λ h. elim ((refusal_under-none (listed []) permission).0 h) [ inl k ↦ k | inr k ↦ k ],
  λ h. absurd h,
)
or_no_permissions_iff (some permissions) permission = refusal_under-none permissions permission

-- One who has all permissions, or what `rest` gives.
all_or_iff :
    (has_all : Bool) (rest : Permissions) (permission : String) {P Q : Type 0}
    → ((has_all ≡ true) ↔ P)
    → ((refusal_under rest permission ≡ none) ↔ Q)
    → (refusal_under (if has_all then listed (some "*" ∷ []) else rest) permission ≡ none) ↔ (P ⊎ Q)
all_or_iff true rest permission p q = (λ h. inl (p.0 refl), λ h. everything permission)
all_or_iff false rest permission p q =
    (λ h. inr (q.0 h), λ h. elim h [ inl k ↦ let wrong = p.1 k in cc | inr k ↦ q.1 k ])

permissions_of_iff :
    (row : Option TenantUser) (permission : String)
    → (refusal_under (permissions_of row) permission ≡ none) ↔ IsAllowedBy row permission
permissions_of_iff none permission = or_no_permissions_iff none permission
permissions_of_iff (some u) permission =
    all_or_iff u.is_org_admin (or_no_permissions u.permissions) permission (λ h. h, λ h. h)
      (or_no_permissions_iff u.permissions permission)

owns_iff :
    (owner : Option Tenant) (user_id : String)
    → (owns owner user_id ≡ true) ↔ IsOwnedBy owner user_id
owns_iff none user_id = (λ h. cc, λ h. absurd h)
owns_iff (some t) user_id = string_eq.same_iff t.user_id user_id

is_approved_iff :
    (status : TenantStatus)
    → (is_approved status ≡ true) ↔ ((status ≡ active) ⊎ (status ≡ suspended))
is_approved_iff active = (λ h. inl refl, λ h. refl)
is_approved_iff suspended = (λ h. inr refl, λ h. refl)
is_approved_iff pending = (λ h. cc, λ h. elim h [ inl k ↦ cc | inr k ↦ cc ])
is_approved_iff rejected = (λ h. cc, λ h. elim h [ inl k ↦ cc | inr k ↦ cc ])

is_demo_tenant_iff :
    (t : Tenant) (user_id : String)
    → (is_demo_tenant t user_id ≡ true) ↔ (
        IsAmong ("web-demo" ∷ "local-demo" ∷ "docker-demo" ∷ []) t.subdomain
        × (t.user_id ≡ user_id))
unfolding is_demo_tenant
is_demo_tenant_iff t user_id =
    let (to, from) = among_iff ("web-demo" ∷ "local-demo" ∷ "docker-demo" ∷ []) t.subdomain in
    let (same, equal) = string_eq.same_iff t.user_id user_id in
    (
      λ h. (to (ground arith), same (ground arith)),
      λ (a, e). let a2 = from a in let e2 = equal e in ground arith,
    )

module _ (tenants : List Tenant) (users : List TenantUser) where
  -- Who may do something in an organization: the platform's administrator in a demo that is its own, or
  -- a member of that organization, active or suspended, that owns it or whose row says so: as one of
  -- its administrators, or by the permission or "*".
  abbrev pub MayUse : UserRole → Session → Tenant → String → Type 0
  MayUse role session t permission =
      ((role ≡ super_admin)
        × IsAmong ("web-demo" ∷ "local-demo" ∷ "docker-demo" ∷ []) t.subdomain
        × (t.user_id ≡ session.user_id))
      ⊎ ((role ≡ org_admin)
          × (session.tenant_id ≡ some t.id)
          × ((t.status ≡ active) ⊎ (t.status ≡ suspended))
          × ((t.user_id ≡ session.user_id)
              ⊎ IsOwnedBy (find (λ o. o.id == t.id) tenants) session.user_id
              ⊎ IsAllowedBy (find (λ u. u.tenant_id == t.id && u.user_id == session.user_id) users)
                  permission))

  abbrev passes : UserRole → Session → Tenant → String → Option Refusal
  passes role session t permission = elim (admin_of role session t) [
    | some refusal ↦ some refusal
    | none ↦ permitted tenants users role session t permission
  ]

  super_admin_iff :
      (session : Session) (t : Tenant) (permission : String)
      → (passes super_admin session t permission ≡ none) ↔ (is_demo_tenant t session.user_id ≡ true)
  super_admin_iff session t permission = (λ h. ground arith, λ h. ground arith)

  org_admin_iff :
      (session : Session) (t : Tenant) (permission : String)
      → (passes org_admin session t permission ≡ none) ↔ (
          ((session.tenant_id == some t.id) ≡ true)
          × (is_approved t.status ≡ true)
          × (((t.user_id == session.user_id) ≡ true)
              ⊎ (refusal_under
                    (get_tenant_user_permissions tenants users t.id session.user_id)
                    permission
                  ≡ none)))
  org_admin_iff session t permission = (
    λ h. (
      ground arith,
      ground arith,
      elim (Bool-cases (t.user_id == session.user_id)) [
        | inl e ↦ inl e
        | inr e ↦ inr (ground arith)
      ],
    ),
    λ (a, b, c). elim c [ inl e ↦ ground arith | inr e ↦ ground arith ],
  )

  granted_iff :
      (session : Session) (t : Tenant) (permission : String)
      → (refusal_under (get_tenant_user_permissions tenants users t.id session.user_id) permission
          ≡ none)
        ↔ (IsOwnedBy (find (λ o. o.id == t.id) tenants) session.user_id
            ⊎ IsAllowedBy
                (find (λ u. u.tenant_id == t.id && u.user_id == session.user_id) users)
                permission)
  unfolding get_tenant_user_permissions
  granted_iff session t permission =
      let owner = find (λ o. o.id == t.id) tenants in
      let row = find (λ u. u.tenant_id == t.id && u.user_id == session.user_id) users in
      all_or_iff (owns owner session.user_id) (permissions_of row) permission
        (owns_iff owner session.user_id) (permissions_of_iff row permission)

  passes_iff :
      (role : UserRole) (session : Session) (t : Tenant) (permission : String)
      → (passes role session t permission ≡ none) ↔ MayUse role session t permission
  passes_iff super_admin session t permission =
      let (to, from) = super_admin_iff session t permission in
      let demo = is_demo_tenant_iff t session.user_id in
      (
        λ h. let (a, e) = demo.0 (to h) in inl (refl, a, e),
        λ h. elim h [ inl (_, a, e) ↦ from (demo.1 (a, e)) | inr k ↦ let wrong = k.0 in cc ],
      )
  passes_iff org_admin session t permission =
      let (to, from) = org_admin_iff session t permission in
      let member = option_beq_iff session.tenant_id (some t.id) in
      let approved = is_approved_iff t.status in
      let own = string_eq.same_iff t.user_id session.user_id in
      let given = granted_iff session t permission in
      (
        λ h.
            let (m, a, g) = to h in
            inr (
              refl,
              member.0 m,
              approved.0 a,
              elim g [ inl e ↦ inl (own.0 e) | inr e ↦ inr (given.0 e) ],
            ),
        λ h. elim h [
          | inl k ↦ let wrong = k.0 in cc
          | inr (_, m, a, g) ↦
              from (
                member.1 m,
                approved.1 a,
                elim g [ inl e ↦ inl (own.1 e) | inr e ↦ inr (given.1 e) ],
              )
        ],
      )

  pub require_tenant_permission_iff :
      (session : Session) (t : Tenant) (permission : String)
      → (require_tenant_permission tenants users (some session) (some t) permission ≡ none)
        ↔ MayUse session.role session t permission
  unfolding require_tenant_permission require_tenant_admin
  require_tenant_permission_iff session t permission = passes_iff session.role session t permission
