-- ===== src/Guard.antt =====
-- cloudflare-control/src/guard.ts: the host that a request is addressed to, and what it says of the
-- organization. Texts are lists of UTF-16 units.
mod Hosts
mod Tenants
mod Access
mod DevHosts
mod Sites
mod Devices
mod Tests
use labkiosk.Shared.{
  ℕ, ◌-◌, Bool, true, false, not, ◌&&◌, ◌||◌, Option, none, some, List, [], ◌∷◌, ◌++◌, String, ◌==◌,
  nat_eq, units_comparable, leb, length, filter, all, any, take, units, trim, is_digit, ends_with,
  without_end, includes_unit, among, if◌then◌else◌,
}
use labkiosk.Web.{Runtime, Url, is_lower, is_alphanumeric, split_on, before}

-- What the guard reads of a request; a header or a parameter that is not there is none.
pub record Request : Type 0 where
  pub url : List ℕ
  pub method : List ℕ
  pub host : Option (List ℕ)
  pub origin : Option (List ℕ)
  pub x_tenant : Option (List ℕ)
  pub tenant_param : Option (List ℕ)
  pub authorization : Option (List ℕ)

abbrev dev_hosts : List String
dev_hosts =
    "localhost" ∷ "127.0.0.1" ∷ "0.0.0.0" ∷ "[::1]" ∷ "host.docker.internal"
    ∷ "host.containers.internal" ∷ []

abbrev pub is_dev_name : List ℕ → Bool
is_dev_name host = among dev_hosts host

-- `header.slice(0, closing + 1)`, where there is a closing bracket.
unfoldable pub through_bracket : List ℕ → Option (List ℕ)
through_bracket [] = none
through_bracket (c ∷ cs) =
    let rest = through_bracket cs in
    if c == b']' then some (c ∷ []) else elim rest [ none ↦ none | some cs' ↦ some (c ∷ cs') ]

abbrev bracketed : List ℕ → Option (List ℕ)
bracketed [] = none
bracketed (c ∷ cs) = if c == b'[' then through_bracket (c ∷ cs) else none

abbrev host_of_header : List ℕ → List ℕ
host_of_header header = elim (bracketed header) [
  | some address ↦ address
  | none ↦ before b':' header
]

module _ (runtime : Runtime) where
  abbrev host_of_url : List ℕ → List ℕ
  host_of_url url = elim (runtime.parse_url url) [
    | some parsed ↦ runtime.to_lower_case parsed.hostname
    | none ↦ units "localhost"
  ]

  abbrev host_of : Option (List ℕ) → List ℕ → List ℕ
  host_of none url = host_of_url url
  host_of (some []) url = host_of_url url
  host_of (some (c ∷ cs)) url = runtime.to_lower_case (host_of_header (c ∷ cs))

  unfoldable pub hostname : Request → List ℕ
  unfolding through_bracket before units
  hostname request = host_of request.host request.url

-- `\d{1,3}`
abbrev pub is_octet : List ℕ → Bool
is_octet part = all is_digit part && leb 1 (length part) && leb (length part) 3

-- `1[6-9]|2\d|3[0-1]`
abbrev is_16_to_31 : List ℕ → Bool
is_16_to_31 (u ∷ v ∷ []) =
    (u == b'1' && leb b'6' v && leb v b'9')
    || (u == b'2' && is_digit v)
    || (u == b'3' && leb b'0' v && leb v b'1')
is_16_to_31 _ = false

abbrev is_private_quad : List (List ℕ) → Bool
is_private_quad (a ∷ b ∷ c ∷ d ∷ []) =
    is_octet c
    && is_octet d
    && ((a == units "127" && is_octet b)
        || (a == units "192" && b == units "168")
        || (a == units "10" && is_octet b)
        || (a == units "172" && is_16_to_31 b))
is_private_quad _ = false

abbrev is_quad : List (List ℕ) → Bool
is_quad (a ∷ b ∷ c ∷ d ∷ []) = is_octet a && is_octet b && is_octet c && is_octet d
is_quad _ = false

-- `isDevHost` of the host.
unfoldable pub is_dev_host : List ℕ → Bool
unfolding split_on units
is_dev_host host = is_dev_name host || is_private_quad (split_on b'.' host)

abbrev starts_with_bracket : List ℕ → Bool
starts_with_bracket [] = false
starts_with_bracket (c ∷ cs) = c == b'['

unfoldable pub is_ip_literal : List ℕ → Bool
unfolding split_on
is_ip_literal host =
    is_quad (split_on b'.' host) || includes_unit b':' host || starts_with_bracket host

abbrev pub reserved_slugs : List String
reserved_slugs =
    "www" ∷ "super" ∷ "labkiosk" ∷ "api" ∷ "admin" ∷ "portal" ∷ "status" ∷ "mail" ∷ "app" ∷ "kiosk"
    ∷ "root" ∷ "releases" ∷ "release" ∷ "updates" ∷ "update" ∷ "ota" ∷ "download" ∷ "downloads"
    ∷ "mirror" ∷ "cdn" ∷ "static" ∷ "assets" ∷ "media" ∷ "files" ∷ "images" ∷ "img" ∷ "docs"
    ∷ "wiki" ∷ "blog" ∷ "help" ∷ "support" ∷ "billing" ∷ "dashboard" ∷ "console" ∷ "platform"
    ∷ "system" ∷ "internal" ∷ "dev" ∷ "staging" ∷ "stage" ∷ "test" ∷ "testing" ∷ "beta" ∷ "preview"
    ∷ "account" ∷ "accounts" ∷ "login" ∷ "signin" ∷ "signup" ∷ "register" ∷ "auth" ∷ "sso" ∷ "oauth"
    ∷ "security" ∷ "official" ∷ "team" ∷ "staff" ∷ "abuse" ∷ "postmaster" ∷ "hostmaster"
    ∷ "webmaster" ∷ "noreply" ∷ "no-reply" ∷ "smtp" ∷ "imap" ∷ "pop" ∷ "pop3" ∷ "webmail" ∷ "ns1"
    ∷ "ns2" ∷ "autodiscover" ∷ "autoconfig" ∷ "mta-sts" ∷ "git" ∷ "vpn" ∷ "ftp" ∷ []

-- demo.ts `DEMO_SLUGS`.
abbrev pub demo_slugs : List String
demo_slugs = "web-demo" ∷ "local-demo" ∷ "docker-demo" ∷ []

-- `RESERVED_SLUGS.has(slug)`
unfoldable pub is_reserved_name : List ℕ → Bool
unfolding units
is_reserved_name slug = among reserved_slugs slug

unfoldable pub is_reserved_slug : List ℕ → Bool
unfolding is_reserved_name units
is_reserved_slug slug = is_reserved_name slug || among ("demo" ∷ demo_slugs) slug

abbrev pub without_dot : List ℕ → List ℕ
without_dot [] = []
without_dot (c ∷ cs) = if c == b'.' then cs else c ∷ cs

module _ (runtime : Runtime) where
  -- `base.replace(/^\./, "").toLowerCase()`
  abbrev pub clean_base : List ℕ → List ℕ
  clean_base base = runtime.to_lower_case (without_dot base)

  -- A base that is not set is the empty text.
  unfoldable pub is_host_under : List ℕ → List ℕ → Bool
  is_host_under host [] = false
  is_host_under host (c ∷ cs) =
      runtime.to_lower_case host == clean_base (c ∷ cs)
      || ends_with (b'.' ∷ clean_base (c ∷ cs)) (runtime.to_lower_case host)

  -- escape.ts `cleanSubdomain`.
  unfoldable pub clean_subdomain : List ℕ → List ℕ
  unfolding trim
  clean_subdomain raw =
      filter (λ c. is_alphanumeric c || c == b'-') (trim (runtime.to_lower_case raw))

  -- The label of a host that is exactly `<slug>.<base>`.
  abbrev pub slug_under : List ℕ → List ℕ → Option (List ℕ)
  slug_under suffix host =
      if not (ends_with suffix host)
        || without_end suffix host == []
        || includes_unit b'.' (without_end suffix host)
      then none
      else some (clean_subdomain (without_end suffix host))

  abbrev pub first_of_three : List (List ℕ) → Option (List ℕ)
  first_of_three (a ∷ b ∷ c ∷ rest) = some (clean_subdomain a)
  first_of_three _ = none

  abbrev pub slug_of : List ℕ → List ℕ → Option (List ℕ)
  slug_of [] host = first_of_three (split_on b'.' host)
  slug_of (c ∷ cs) host = slug_under (b'.' ∷ clean_base (c ∷ cs)) host

  abbrev pub unless_reserved : List ℕ → Option (List ℕ)
  unless_reserved slug = if slug == [] || is_reserved_name slug then none else some slug

  unfoldable pub host_subdomain : List ℕ → List ℕ → Option (List ℕ)
  unfolding split_on is_ip_literal clean_subdomain is_reserved_name
  host_subdomain host base =
      if is_ip_literal host
      then none
      else elim (slug_of base host) [ none ↦ none | some slug ↦ unless_reserved slug ]

  -- `superAdminHost`, with none for the exception that it throws.
  unfoldable pub super_admin_host : List ℕ → List ℕ → Option (Option (List ℕ))
  unfolding trim
  super_admin_host configured default_domain =
      let host = runtime.to_lower_case (trim configured) in
      let base = clean_base default_domain in
      if host == []
      then some none
      else if base == []
          || host == base
          || not (ends_with (b'.' ∷ base) host)
          || includes_unit b'.' (without_end (b'.' ∷ base) host)
      then none
      else some (some host)
