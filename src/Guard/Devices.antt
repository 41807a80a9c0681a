-- ===== src/Guard/Devices.antt =====
-- guard.ts `requireDevice` and `forgetDeviceToken`, with the tokens that were verified kept for a
-- minute. A Map is the list of its entries, the oldest first.
pub mod Vouched
pub mod Trust
use labkiosk.Shared.{
  ℕ, zero, suc, ◌+◌, ◌/◌, ◌*◌, ◌≤◌, ◌<◌, ◌≡◌, ◌⊎◌, inl, inr, refl, sym, Bool, true, false, not,
  ◌&&◌, ◌||◌, Option, none, some, List, [], ◌∷◌, ◌++◌, map, String, ◌==◌, string_eq,
  units_comparable, units_eq_iff, leb, ltb, length, filter, find, find-some, any, take, drop, All,
  All-filter, All-snoc, trim, units, if◌then◌else◌, arith, Bool-cases, Option-cases, length-append,
  length-filter-le, length-map,
}

-- A row of `device_tokens`.
pub record DeviceToken : Type 0 where
  pub id : String
  pub token_hash : List ℕ
  pub tenant_id : String
  pub client_id : String
  pub last_used_at : ℕ
  pub revoked : Bool

pub record Cached : Type 0 where
  pub token : List ℕ
  pub device : DeviceToken
  pub until : ℕ

abbrev pub cache_ms : ℕ
cache_ms = 60000

abbrev pub cache_limit : ℕ
cache_limit = 20000

abbrev touch_seconds : ℕ
touch_seconds = 3600

pub data DeviceAnswer : Type 0 where
  device : DeviceToken → DeviceAnswer
  token_needed bad_token : DeviceAnswer

abbrev pub is_of_client : String → String → Cached → Bool
is_of_client tenant_id client_id e =
    e.device.tenant_id == tenant_id && e.device.client_id == client_id

unfoldable pub forget_device_token : List Cached → String → String → List Cached
forget_device_token cache tenant_id client_id =
    filter (λ e. not (is_of_client tenant_id client_id e)) cache

-- `cache.get`, `cache.delete` and `cache.set`, which leaves a key that is there in its place.
unfoldable pub cached_for : List ℕ → List Cached → Option Cached
cached_for token cache = find (λ e. e.token == token) cache

unfoldable pub uncache : List ℕ → List Cached → List Cached
uncache token cache = filter (λ e. not (e.token == token)) cache

unfoldable pub cache_set : Cached → List Cached → List Cached
cache_set entry [] = entry ∷ []
cache_set entry (e ∷ es) = if e.token == entry.token then entry ∷ es else e ∷ cache_set entry es

-- At the limit the oldest entry goes.
unfoldable pub make_room : List Cached → List Cached
make_room cache = if leb cache_limit (length cache) then drop 1 cache else cache

abbrev bearer : List ℕ → Option (List ℕ)
bearer auth =
    if take 7 auth == units "Bearer "
    then (if trim (drop 7 auth) == [] then none else some (trim (drop 7 auth)))
    else none

-- `request.headers.get("authorization") || ""`
abbrev header_text : Option (List ℕ) → List ℕ
header_text none = []
header_text (some text) = text

-- The token that a request presents.
unfoldable pub token_of : Option (List ℕ) → Option (List ℕ)
unfolding trim units
token_of auth = bearer (header_text auth)

abbrev touch_row : String → ℕ → DeviceToken → DeviceToken
touch_row id clock r = if r.id == id then record r { last_used_at = clock } else r

pub record Answered : Type 0 where
  pub answer : DeviceAnswer
  pub cache : List Cached
  pub rows : List DeviceToken

module _ (sha256_hex : List ℕ → List ℕ) where
  unfoldable pub find_device_by_token : List DeviceToken → List ℕ → Option DeviceToken
  find_device_by_token rows token =
      find (λ r. r.token_hash == sha256_hex token && not r.revoked) rows

  -- A token's last use is written at most once an hour.
  abbrev pub touch : List DeviceToken → DeviceToken → ℕ → ℕ → List DeviceToken
  touch rows d now_ms clock =
      if ltb (d.last_used_at + touch_seconds) (now_ms / 1000)
      then map (touch_row d.id clock) rows
      else rows

  abbrev pub admit : List Cached → List DeviceToken → List ℕ → ℕ → ℕ → DeviceToken → Answered
  admit cache rows token now_ms clock d = record {
    answer = device d;
    cache =
        cache_set (record { token = token; device = d; until = now_ms + cache_ms })
          (make_room cache);
    rows = touch rows d now_ms clock;
  }

  abbrev pub refuse : List Cached → List DeviceToken → List ℕ → Answered
  refuse cache rows token = record { answer = bad_token; cache = uncache token cache; rows = rows }

  pub verified : List Cached → List DeviceToken → List ℕ → ℕ → ℕ → Option DeviceToken → Answered
  verified cache rows token now_ms clock none = refuse cache rows token
  verified cache rows token now_ms clock (some d) =
      if d.revoked then refuse cache rows token else admit cache rows token now_ms clock d

  -- `if (cached && cached.until > now) return …`
  pub from_cache : List Cached → List DeviceToken → List ℕ → ℕ → ℕ → Option Cached → Answered
  from_cache cache rows token now_ms clock none =
      verified cache rows token now_ms clock (find_device_by_token rows token)
  from_cache cache rows token now_ms clock (some e) =
      if ltb now_ms e.until
      then record { answer = device e.device; cache = cache; rows = rows }
      else verified cache rows token now_ms clock (find_device_by_token rows token)

  pub for_token : List Cached → List DeviceToken → ℕ → ℕ → Option (List ℕ) → Answered
  for_token cache rows now_ms clock none = record {
    answer = token_needed;
    cache = cache;
    rows = rows;
  }
  for_token cache rows now_ms clock (some token) =
      from_cache cache rows token now_ms clock (cached_for token cache)

  unfoldable pub require_device :
      List Cached → List DeviceToken → Option (List ℕ) → ℕ → ℕ → Answered
  unfolding for_token from_cache verified find_device_by_token cached_for uncache cache_set
      make_room token_of
  require_device cache rows auth now_ms clock = for_token cache rows now_ms clock (token_of auth)
