-- ===== src/Exams/Accepted.antt =====
-- What an accepted exam is: its times, its name and its sites.
use labkiosk.Shared.{
  ℕ, ◌+◌, ◌*◌, ◌≤◌, ◌≡◌, Bool, true, false, not, ◌&&◌, ◌||◌, List, [], ◌∷◌, ◌++◌, String, ◌==◌,
  string_eq, nat_eq, units_comparable, length, any-append, arith, units_eq_iff, units,
}
use labkiosk.Shared.Result.{ok, or_throw, >>=-ok}
use labkiosk.Json.{Json, Items, property, undefined, text, array, object, nil, cons}
use labkiosk.Web.{Runtime, is_host, safe_http_url, normalize_domain}
use labkiosk.Exams.{ExamInput}
use labkiosk.Exams.Parsing.{
  trimmed_text, includes, add_host, add_hosts, parse_extra_hosts, parse_title, own_host,
  parse_group_name, parse_start, parse_minutes, parse_exam_input, bad_url, type_error,
}

parse_start-bounds :
    (now : ℕ) (value : Json) (start : ℕ)
    → parse_start now value ≡ ok start
    → (now ≤ start) × (start ≤ now + 90 * 86400)
unfolding parse_start
parse_start-bounds now value start h = ground arith

parse_minutes-bounds :
    (value : Json) (minutes : ℕ)
    → parse_minutes value ≡ ok minutes
    → (5 ≤ minutes) × (minutes ≤ 600)
unfolding parse_minutes
parse_minutes-bounds value minutes h = ground arith

parse_title-bounds :
    (value : Json) (title : List ℕ) → parse_title value ≡ ok title → length title ≤ 120
unfolding parse_title
parse_title-bounds value title h = ground arith

-- Sites, each a host name, none listed twice.
abbrev pub are_sites : List (List ℕ) → Bool
are_sites [] = true
are_sites (h ∷ hs) = is_host h && not (includes hs h) && are_sites hs

includes-append_one :
    (host x : List ℕ) (hs : List (List ℕ))
    → includes (hs ++ host ∷ []) x ≡ (includes hs x || host == x)
includes-append_one host x hs = ground (arith, any-append (λ h. h == x) hs (host ∷ []))

are_sites-append_one :
    (hs : List (List ℕ)) (host : List ℕ)
    → are_sites hs ≡ true
    → is_host host ≡ true
    → includes hs host ≡ false
    → are_sites (hs ++ host ∷ []) ≡ true
are_sites-append_one [] host h k l = ground arith
are_sites-append_one (x ∷ hs) host h k l = ground (
  arith,
  are_sites-append_one hs host,
  includes-append_one host x hs,
  units_eq_iff x host,
  units_eq_iff host x,
)

module _ (runtime : Runtime) (own : List ℕ) where
  add_host-are_sites :
      (extra next : List (List ℕ)) (value : Json)
      → are_sites (own ∷ extra) ≡ true
      → add_host runtime own extra value ≡ ok next
      → are_sites (own ∷ next) ≡ true
  unfolding add_host
  add_host-are_sites extra next (text raw) h k =
      let host = normalize_domain runtime (units raw) in
      ground (
        arith,
        are_sites-append_one (own ∷ extra) host h,
        units_eq_iff own host,
        units_eq_iff host own,
      )
  add_host-are_sites extra next undefined h k = cc
  add_host-are_sites extra next _ h k = cc

  add_hosts-are_sites :
      (extra next : List (List ℕ)) (items : Items)
      → are_sites (own ∷ extra) ≡ true
      → add_hosts runtime own extra items ≡ ok next
      → are_sites (own ∷ next) ≡ true
  unfolding add_hosts
  add_hosts-are_sites extra next nil h k = ground arith
  add_hosts-are_sites extra next (cons v vs) h k =
      let (more, first, rest) = >>=-ok (add_host runtime own extra v) _ next k in
      add_hosts-are_sites more next vs (add_host-are_sites extra more v h first) rest

  parse_extra_hosts-are_sites :
      (value : Json) (extra : List (List ℕ))
      → is_host own ≡ true
      → parse_extra_hosts runtime own value ≡ ok extra
      → (are_sites (own ∷ extra) ≡ true) × (length extra ≤ 20)
  unfolding parse_extra_hosts
  parse_extra_hosts-are_sites (array items) extra h k =
      let (all_hosts, listed, rest) = >>=-ok (add_hosts runtime own [] items) _ extra k in
      let sites = add_hosts-are_sites [] all_hosts items (ground arith) listed in ground arith
  parse_extra_hosts-are_sites undefined extra h k = ground arith
  parse_extra_hosts-are_sites _ extra h k = ground arith

own_host-is_host :
    (runtime : Runtime) (url own : List ℕ) → own_host runtime url ≡ ok own → is_host own ≡ true
unfolding own_host
own_host-is_host runtime url own h =
    let (parsed, found, rest) = >>=-ok (or_throw (runtime.parse_url url) type_error) _ own h in
    ground arith

module _ (runtime : Runtime) (groups : List String) (now : ℕ) where
  -- An accepted exam starts now or later, at most 90 days ahead, lasts 5 to 600 minutes, has a name of
  -- at most 120 units, and its sites are at most 21 different host names.
  pub parse_exam_input-bounds :
      (body : Json) (input : ExamInput)
      → parse_exam_input runtime body groups now ≡ ok input
      → (now ≤ input.starts_at)
        × (input.starts_at ≤ now + 90 * 86400)
        × (input.starts_at + 300 ≤ input.ends_at)
        × (input.ends_at ≤ input.starts_at + 36000)
        × (length input.title ≤ 120)
        × (length input.hosts ≤ 21)
        × (are_sites input.hosts ≡ true)
  unfolding parse_exam_input
  parse_exam_input-bounds (object body) input h =
      let (title, at_title, h1) = >>=-ok (parse_title (property body "title")) _ input h in
      let (url, at_url, h2) =
        >>=-ok (or_throw (safe_http_url runtime (trimmed_text (property body "url"))) bad_url) _
          input h1 in
      let (own, at_own, h3) = >>=-ok (own_host runtime url) _ input h2 in
      let (extra, at_extra, h4) =
        >>=-ok (parse_extra_hosts runtime own (property body "hosts")) _ input h3 in
      let (group, at_group, h5) =
        >>=-ok (parse_group_name groups (property body "groupName")) _ input h4 in
      let (start, at_start, h6) = >>=-ok (parse_start now (property body "startsAt")) _ input h5 in
      let (minutes, at_minutes, h7) =
        >>=-ok (parse_minutes (property body "durationMinutes")) _ input h6 in
      let named = parse_title-bounds (property body "title") title at_title in
      let from = parse_start-bounds now (property body "startsAt") start at_start in
      let long = parse_minutes-bounds (property body "durationMinutes") minutes at_minutes in
      let sites =
        parse_extra_hosts-are_sites runtime own (property body "hosts") extra
          (own_host-is_host runtime url own at_own) at_extra in
      ground arith
  parse_exam_input-bounds undefined input h = cc
  parse_exam_input-bounds (array items) input h = cc
  parse_exam_input-bounds _ input h = cc
