-- ===== src/Guard/Sites.antt =====
-- guard.ts `rejectCrossSiteMutation` and `rejectCrossSiteSocket`.
use labkiosk.Shared.{
  ℕ, ◌≡◌, ◌⊎◌, inl, inr, Bool, true, false, not, ◌&&◌, ◌||◌, Option, none, some, List, [], ◌∷◌,
  ◌++◌, ◌==◌, units_comparable, units_eq_iff, units, if◌then◌else◌, arith, Bool-cases, Option-cases,
}
use labkiosk.Web.{Runtime, Url}
use labkiosk.Guard.{Request, hostname, is_dev_name, is_dev_host, is_host_under, clean_base}
use labkiosk.Guard.DevHosts.{IsDevName, IsDevHost, is_dev_name-IsDevName, is_dev_host-IsDevHost}
use labkiosk.Guard.Hosts.{is_host_under_iff}

not-false : (b : Bool) → not b ≡ false → b ≡ true
not-false b h = ground arith

passed_method :
    (post delete foreign : Bool)
    → (post || delete) ≡ true
    → (if not true then false else if not post && not delete then false else foreign) ≡ false
    → foreign ≡ false
passed_method post delete foreign h k = ground arith

module _ (runtime : Runtime) where
  abbrev pub same_site : Request → List ℕ → List ℕ → Bool
  same_site request base origin_host =
      origin_host == hostname runtime request
      || (is_dev_name origin_host && is_dev_host (hostname runtime request))
      || is_host_under runtime origin_host base

  -- Whether an Origin is refused: one that is no URL, or of another site.
  abbrev pub is_foreign : Request → List ℕ → List ℕ → Bool
  is_foreign request base origin = elim (runtime.parse_url origin) [
    | none ↦ true
    | some url ↦ not (same_site request base (runtime.to_lower_case url.hostname))
  ]

  -- A missing or an empty Origin.
  abbrev pub foreign_origin : Bool → Request → List ℕ → Option (List ℕ) → Bool
  foreign_origin missing request base none = missing
  foreign_origin missing request base (some origin) =
      if origin == []
      then missing
      else if origin == units "null"
      then true
      else is_foreign request base origin

  -- True where the request is refused.
  unfoldable pub reject_cross_site_mutation : Request → Bool → List ℕ → Bool
  unfolding units
  reject_cross_site_mutation request used_cookie base =
      if not used_cookie
      then false
      else if not (request.method == units "POST") && not (request.method == units "DELETE")
      then false
      else foreign_origin false request base request.origin

  unfoldable pub reject_cross_site_socket : Request → List ℕ → Bool
  unfolding units
  reject_cross_site_socket request base = foreign_origin true request base request.origin

  -- A host that is the platform's domain, or ends in a dot and the domain; no host where none is set.
  abbrev pub IsUnder : List ℕ → List ℕ → Type 0
  IsUnder host [] = ⊥
  IsUnder host (c ∷ cs) =
      (runtime.to_lower_case host ≡ clean_base runtime (c ∷ cs))
      ⊎ ((prefix : List ℕ) × (runtime.to_lower_case host
            ≡ prefix ++ b'.' ∷ clean_base runtime (c ∷ cs)))

  -- The Origin names a page of the host itself, of the platform's domain, or of a development host
  -- while the request is to one.
  abbrev pub IsOwnPage : Request → List ℕ → Option (List ℕ) → Type 0
  IsOwnPage request base none = ⊥
  IsOwnPage request base (some origin) =
      (url : Url) × (runtime.parse_url origin ≡ some url)
      × ((runtime.to_lower_case url.hostname ≡ hostname runtime request)
          ⊎ (IsDevName (runtime.to_lower_case url.hostname) × IsDevHost (hostname runtime request))
          ⊎ IsUnder (runtime.to_lower_case url.hostname) base)

  abbrev pub IsMissing : Option (List ℕ) → Type 0
  IsMissing none = Unit
  IsMissing (some origin) = origin ≡ []

  no_base : (host : List ℕ) → is_host_under runtime host [] ≡ true → ⊥
  unfolding is_host_under
  no_base host h = cc

  is_host_under-IsUnder :
      (host base : List ℕ) → is_host_under runtime host base ≡ true → IsUnder host base
  is_host_under-IsUnder host [] h = no_base host h
  is_host_under-IsUnder host (c ∷ cs) h = (is_host_under_iff runtime host c cs).0 h

  same_site_cases :
      (request : Request) (base host : List ℕ)
      → same_site request base host ≡ true
      → (host ≡ hostname runtime request)
        ⊎ (IsDevName host × IsDevHost (hostname runtime request))
        ⊎ IsUnder host base
  same_site_cases request base host h = elim (Bool-cases (host == hostname runtime request)) [
    | inl e ↦ inl ((units_eq_iff host (hostname runtime request)).0 e)
    | inr e ↦ elim (Bool-cases (is_dev_name host && is_dev_host (hostname runtime request))) [
      | inl d ↦ inr (
          inl (
            is_dev_name-IsDevName host (ground arith),
            is_dev_host-IsDevHost (hostname runtime request) (ground arith),
          ))
      | inr d ↦ inr (inr (is_host_under-IsUnder host base (ground arith)))
    ]
  ]

  is_foreign_lem :
      (request : Request) (base origin : List ℕ)
      → is_foreign request base origin ≡ false
      → IsOwnPage request base (some origin)
  is_foreign_lem request base origin h = elim (Option-cases (runtime.parse_url origin)) [
    | inl broken ↦ let wrong : true ≡ false = rw (broken, is_foreign) at h in cc
    | inr (url, parsed) ↦
        let host = runtime.to_lower_case url.hostname in
        let own : not (same_site request base host) ≡ false = rw (parsed, is_foreign) at h in
        (url, parsed, same_site_cases request base host (not-false _ own))
  ]

  foreign_origin_lem :
      (missing : Bool) (request : Request) (base : List ℕ) (origin : Option (List ℕ))
      → foreign_origin missing request base origin ≡ false
      → ((missing ≡ false) × IsMissing origin) ⊎ IsOwnPage request base origin
  foreign_origin_lem missing request base none h = inl (h, tt)
  foreign_origin_lem missing request base (some origin) h = elim (Bool-cases (origin == [])) [
    | inl blank ↦ inl (rw (blank, foreign_origin) at h, (units_eq_iff origin []).0 blank)
    | inr given ↦ elim (Bool-cases (origin == units "null")) [
      | inl opaque ↦ let wrong : true ≡ false = rw (given, opaque, foreign_origin) at h in cc
      | inr named ↦
          inr (is_foreign_lem request base origin (rw (given, named, foreign_origin) at h))
    ]
  ]

  -- A cookie's POST or DELETE that passes comes from a page of this site or names no Origin, and a
  -- WebSocket handshake that passes comes from a page of this site.
  pub cross_site_refused :
      (mutation socket : Request) (base : List ℕ)
      → (mutation.method == units "POST" || mutation.method == units "DELETE") ≡ true
      → reject_cross_site_mutation mutation true base ≡ false
      → reject_cross_site_socket socket base ≡ false
      → (IsMissing mutation.origin ⊎ IsOwnPage mutation base mutation.origin)
        × IsOwnPage socket base socket.origin
  unfolding reject_cross_site_mutation reject_cross_site_socket
  cross_site_refused mutation socket base post h k = (
    elim (foreign_origin_lem false mutation base mutation.origin (
        passed_method (mutation.method == units "POST") (mutation.method == units "DELETE") _ post
          h)) [ inl (_, missing) ↦ inl missing | inr own ↦ inr own ],
    elim (foreign_origin_lem true socket base socket.origin k) [
      | inl (wrong, _) ↦ cc
      | inr own ↦ own
    ],
  )
