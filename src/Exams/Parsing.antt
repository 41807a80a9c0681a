-- ===== src/Exams/Parsing.antt =====
-- exams.ts `parseExamInput`.
use labkiosk.Shared.{
  ℕ, ◌+◌, ◌*◌, Bool, not, ◌||◌, max, Option, none, some, List, [], ◌∷◌, ◌++◌, String, ◌==◌,
  string_eq, nat_eq, units_comparable, ltb, length, take, any, units, trim, mem, if◌then◌else◌,
}
use labkiosk.Shared.Result.{Outcome, ok, throw, ◌>>=◌, ◌>>◌, throw_if, or_throw}
use labkiosk.Json.{
  Json, Items, property, undefined, null, whole, minus, text, array, object, nil, cons,
}
use labkiosk.Web.{Runtime, is_host, safe_http_url, normalize_domain}
use labkiosk.Exams.{ExamInput}

abbrev pub max_title : ℕ
max_title = 120

abbrev pub max_extra_hosts : ℕ
max_extra_hosts = 20

abbrev min_minutes : ℕ
min_minutes = 5

abbrev max_minutes : ℕ
max_minutes = 600

abbrev ahead_days : ℕ
ahead_days = 90

abbrev start_grace_seconds : ℕ
start_grace_seconds = 120

pub data ExamInputError : Type 0 where
  not_an_object no_title long_title bad_url unnamed_site bad_hosts too_many_hosts : ExamInputError
  no_group bad_start start_passed too_far_ahead bad_length : ExamInputError
  not_a_domain : List ℕ → ExamInputError
  type_error : ExamInputError  -- what `new URL` throws

-- `typeof v === "string" ? v.trim() : ""`
abbrev pub trimmed_text : Json → List ℕ
trimmed_text (text s) = trim (units s)
trimmed_text _ = []

abbrev pub includes : List (List ℕ) → List ℕ → Bool
includes hosts host = any (λ h. h == host) hosts

unfoldable pub parse_title : Json → Outcome ExamInputError (List ℕ)
parse_title value =
    let title = trimmed_text value in
    if title == []
    then throw no_title
    else if ltb max_title (length title)
    then throw long_title
    else ok title

unfoldable pub parse_group_name : List String → Json → Outcome ExamInputError (Option String)
parse_group_name groups undefined = ok none
parse_group_name groups null = ok none
parse_group_name groups (text s) =
    if s == "" then ok none else if mem s groups then ok (some s) else throw no_group
parse_group_name groups _ = throw no_group

-- A negative start, -(n + 1), is before `now - 120` just when `n + 1 + now` is above 120.
unfoldable pub parse_start : ℕ → Json → Outcome ExamInputError ℕ
parse_start now undefined = ok now
parse_start now null = ok now
parse_start now (whole start) =
    if ltb (start + start_grace_seconds) now
    then throw start_passed
    else if ltb (now + ahead_days * 86400) start
    then throw too_far_ahead
    else ok (max start now)
parse_start now (minus n) =
    if ltb start_grace_seconds (n + 1 + now) then throw start_passed else ok now
parse_start now _ = throw bad_start

unfoldable pub parse_minutes : Json → Outcome ExamInputError ℕ
parse_minutes (whole minutes) =
    if ltb minutes min_minutes || ltb max_minutes minutes then throw bad_length else ok minutes
parse_minutes _ = throw bad_length

module _ (runtime : Runtime) where
  -- One round of the loop over the other sites.
  unfoldable pub add_host : List ℕ → List (List ℕ) → Json → Outcome ExamInputError (List (List ℕ))
  add_host own extra (text raw) =
      let host = normalize_domain runtime (units raw) in
      if host == []
      then ok extra
      else if not (is_host host)
      then throw (not_a_domain (take 80 (units raw)))
      else if host == own || includes extra host
      then ok extra
      else ok (extra ++ host ∷ [])
  add_host own extra _ = throw bad_hosts

  unfoldable pub add_hosts : List ℕ → List (List ℕ) → Items → Outcome ExamInputError (List (List ℕ))
  add_hosts own extra nil = ok extra
  add_hosts own extra (cons v vs) = add_host own extra v >>= λ next. add_hosts own next vs

  unfoldable pub parse_extra_hosts : List ℕ → Json → Outcome ExamInputError (List (List ℕ))
  unfolding add_hosts
  parse_extra_hosts own undefined = ok []
  parse_extra_hosts own null = ok []
  parse_extra_hosts own (array items) = do
    extra ← add_hosts own [] items
    throw_if (ltb max_extra_hosts (length extra)) too_many_hosts
    ok extra
  parse_extra_hosts own _ = throw bad_hosts

  -- The host of an accepted address: `new URL(url).hostname.toLowerCase()`.
  unfoldable pub own_host : List ℕ → Outcome ExamInputError (List ℕ)
  own_host url = do
    parsed ← or_throw (runtime.parse_url url) type_error
    throw_if (not (is_host (runtime.to_lower_case parsed.hostname))) unnamed_site
    ok (runtime.to_lower_case parsed.hostname)

  unfoldable pub parse_exam_input : Json → List String → ℕ → Outcome ExamInputError ExamInput
  unfolding add_host add_hosts parse_extra_hosts parse_title own_host parse_group_name parse_start
      parse_minutes
  parse_exam_input (object body) groups now = do
    title ← parse_title (property body "title")
    url ← or_throw (safe_http_url runtime (trimmed_text (property body "url"))) bad_url
    own ← own_host url
    extra ← parse_extra_hosts own (property body "hosts")
    group ← parse_group_name groups (property body "groupName")
    start ← parse_start now (property body "startsAt")
    minutes ← parse_minutes (property body "durationMinutes")
    ok (record {
      title = title;
      group_name = group;
      url = url;
      hosts = own ∷ extra;
      starts_at = start;
      ends_at = start + minutes * 60;
    })
  parse_exam_input (array items) groups now = throw no_title
  parse_exam_input _ groups now = throw not_an_object
