-- ===== src/Web.antt =====
-- Addresses and host names: escape.ts `safeHttpUrl`, db.ts `normalizeDomain` and the HOST_PATTERN of
-- cloudflare-control/src/exams.ts. Texts are lists of UTF-16 units.
use labkiosk.Shared.{
  ℕ, Bool, true, false, not, ◌&&◌, ◌||◌, Option, none, some, List, [], ◌∷◌, ◌++◌, ◌==◌, nat_eq,
  units_comparable, leb, length, filter, all, units, trim, is_digit, if◌then◌else◌, suc,
}

-- What the source reads of a `URL`.
pub record Url : Type 0 where
  pub protocol : List ℕ
  pub hostname : List ℕ
  pub href : List ℕ

-- `String.prototype.toLowerCase` and `new URL`, which gives none where it throws.
pub record Runtime : Type 0 where
  pub to_lower_case : List ℕ → List ℕ
  pub parse_url : List ℕ → Option Url

abbrev pub is_lower : ℕ → Bool
is_lower c = leb b'a' c && leb c b'z'

abbrev pub is_upper : ℕ → Bool
is_upper c = leb b'A' c && leb c b'Z'

abbrev pub is_alphanumeric : ℕ → Bool
is_alphanumeric c = is_lower c || is_digit c

-- `(?:…)+` of HOST_PATTERN, a label and its dot: what stands between two dots.
unfoldable pub split_on : ℕ → List ℕ → List (List ℕ)
split_on mark [] = [] ∷ []
split_on mark (c ∷ cs) =
    let rest = split_on mark cs in
    if c == mark
    then [] ∷ rest
    else elim rest [ [] ↦ (c ∷ []) ∷ [] | part ∷ parts ↦ (c ∷ part) ∷ parts ]

abbrev ends_alphanumeric : List ℕ → Bool
ends_alphanumeric [] = false
ends_alphanumeric (c ∷ []) = is_alphanumeric c
ends_alphanumeric (c ∷ d ∷ cs) = ends_alphanumeric (d ∷ cs)

abbrev starts_alphanumeric : List ℕ → Bool
starts_alphanumeric [] = false
starts_alphanumeric (c ∷ cs) = is_alphanumeric c

-- `[a-z0-9](?:[a-z0-9-]{0,61}[a-z0-9])?`
abbrev is_label : List ℕ → Bool
is_label cs =
    starts_alphanumeric cs
    && ends_alphanumeric cs
    && all (λ c. is_alphanumeric c || c == b'-') cs
    && leb (length cs) 63

-- `[a-z]{2,63}`
abbrev is_top_level : List ℕ → Bool
is_top_level cs = all is_lower cs && leb 2 (length cs) && leb (length cs) 63

abbrev are_labels : List (List ℕ) → Bool
are_labels [] = false
are_labels (top ∷ []) = false
are_labels (label ∷ top ∷ []) = is_label label && is_top_level top
are_labels (label ∷ next ∷ last ∷ rest) = is_label label && are_labels (next ∷ last ∷ rest)

-- `HOST_PATTERN.test(host)`
unfoldable pub is_host : List ℕ → Bool
unfolding split_on
is_host host = leb 1 (length host) && leb (length host) 253 && are_labels (split_on b'.' host)

-- `/^[a-zA-Z0-9.-]+:\d{1,5}(\/|\?|#|$)/`
after_port : ℕ → List ℕ → Bool
after_port seen [] = leb 1 seen && leb seen 5
after_port seen (c ∷ cs) =
    if is_digit c
    then after_port (suc seen) cs
    else leb 1 seen && leb seen 5 && (c == b'/' || c == b'?' || c == b'#')

looks_like_host_port : Bool → List ℕ → Bool
unfolding after_port
looks_like_host_port seen [] = false
looks_like_host_port seen (c ∷ cs) =
    if is_alphanumeric c || is_upper c || c == b'.' || c == b'-'
    then looks_like_host_port true cs
    else seen && c == b':' && after_port 0 cs

-- `/^[a-zA-Z][a-zA-Z0-9+.-]*:/`
scheme_ends : List ℕ → Bool
scheme_ends [] = false
scheme_ends (c ∷ cs) =
    if is_alphanumeric c || is_upper c || c == b'+' || c == b'.' || c == b'-'
    then scheme_ends cs
    else c == b':'

starts_with_scheme : List ℕ → Bool
unfolding scheme_ends
starts_with_scheme [] = false
starts_with_scheme (c ∷ cs) = (is_lower c || is_upper c) && scheme_ends cs

http_only : Url → Option (List ℕ)
http_only url =
    if url.protocol == units "http:" || url.protocol == units "https:"
    then (if url.hostname == [] then none else some url.href)
    else none

module _ (runtime : Runtime) where
  unfoldable pub safe_http_url : List ℕ → Option (List ℕ)
  unfolding looks_like_host_port starts_with_scheme http_only trim units
  safe_http_url raw =
      let candidate = trim raw in
      let has_scheme = not (looks_like_host_port false candidate) && starts_with_scheme candidate in
      let to_parse = if has_scheme then candidate else units "https://" ++ candidate in
      if candidate == []
      then none
      else elim (runtime.parse_url to_parse) [ none ↦ none | some url ↦ http_only url ]

after_slashes : List ℕ → Option (List ℕ)
after_slashes [] = none
after_slashes (a ∷ []) = none
after_slashes (a ∷ b ∷ rest) = if a == b'/' && b == b'/' then some rest else none

after_scheme : List ℕ → Option (List ℕ)
unfolding after_slashes
after_scheme [] = none
after_scheme (c ∷ cs) =
    if is_alphanumeric c || c == b'+' || c == b'.' || c == b'-'
    then after_scheme cs
    else if c == b':'
    then after_slashes cs
    else none

abbrev or_whole : Option (List ℕ) → List ℕ → List ℕ
or_whole none whole = whole
or_whole (some rest) whole = rest

-- `.replace(/^[a-z][a-z0-9+.-]*:\/\//, "")`
strip_scheme : List ℕ → List ℕ
unfolding after_scheme
strip_scheme [] = []
strip_scheme (c ∷ cs) = if is_lower c then or_whole (after_scheme cs) (c ∷ cs) else c ∷ cs

-- `.replace(/^[^@/]*@/, "")`
after_credentials : List ℕ → Option (List ℕ)
after_credentials [] = none
after_credentials (c ∷ cs) =
    if c == b'@' then some cs else if c == b'/' then none else after_credentials cs

-- `.split(mark)[0]`
unfoldable pub before : ℕ → List ℕ → List ℕ
before mark [] = []
before mark (c ∷ cs) = if c == mark then [] else c ∷ before mark cs

module _ (runtime : Runtime) where
  unfoldable pub normalize_domain : List ℕ → List ℕ
  unfolding strip_scheme after_credentials before trim
  normalize_domain raw =
      let bare = strip_scheme (trim (runtime.to_lower_case raw)) in
      let site = or_whole (after_credentials bare) bare in
      filter (λ c. is_alphanumeric c || c == b'.' || c == b'-') (before b':' (before b'/' site))
