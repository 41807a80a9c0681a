-- ===== src/Guard/Devices/Vouched.antt =====
-- What the cache of device tokens holds, and that a request leaves it so.
use labkiosk.Shared.{
  ℕ, suc, ◌+◌, ◌≤◌, ◌<◌, ◌≡◌, ◌⊎◌, inl, inr, refl, Bool, true, false, not, Option, none, some, List,
  [], ◌∷◌, ◌==◌, string_eq, units_comparable, units_eq_iff, leb, ltb, ltb→lt, length, drop, All,
  All-filter, if◌then◌else◌, arith, Bool-cases, length-filter-le,
}
use mathlib.Core.Path.{subst}
use labkiosk.Guard.Devices.{
  DeviceToken, Cached, cache_ms, cache_limit, device, cached_for, uncache, cache_set, make_room,
  Answered, find_device_by_token, admit, refuse, verified, from_cache,
}

-- That the table vouched for a token at a time.
pub record Vouched : Type 0 where
  pub token : List ℕ
  pub device : DeviceToken
  pub at : ℕ

abbrev pub VouchedFor : List ℕ → DeviceToken → ℕ → List Vouched → Type 0
VouchedFor token d until [] = ⊥
VouchedFor token d until (v ∷ vs) =
    ((v.token ≡ token) × (v.device ≡ d) × (until ≡ v.at + cache_ms)) ⊎ VouchedFor token d until vs

abbrev pub Backed : List Vouched → Cached → Type 0
Backed log e = VouchedFor e.token e.device e.until log

-- What is kept is what the table said a minute before it ends, and never more than the limit.
pub record IsSound (cache : List Cached) (log : List Vouched) : Type 0 where
  pub within : length cache ≤ cache_limit
  pub backed : All (Backed log) cache

All-later :
    (log : List Vouched) (v : Vouched) (cache : List Cached)
    → All (Backed log) cache
    → All (Backed (v ∷ log)) cache
All-later log v [] h = tt
All-later log v (e ∷ es) (h, hs) = (inr h, All-later log v es hs)

All-drop_one :
    (log : List Vouched) (cache : List Cached)
    → All (Backed log) cache
    → All (Backed log) (drop 1 cache)
All-drop_one log [] h = tt
All-drop_one log (e ∷ es) (h, hs) = hs

All-cache_set :
    (log : List Vouched) (entry : Cached) (cache : List Cached)
    → Backed log entry
    → All (Backed log) cache
    → All (Backed log) (cache_set entry cache)
unfolding cache_set
All-cache_set log entry [] b h = (b, tt)
All-cache_set log entry (e ∷ es) b (h, hs) = elim (Bool-cases (e.token == entry.token)) [
  | inl same ↦ rw same (b, hs)
  | inr other ↦ rw other (h, All-cache_set log entry es b hs)
]

All-make_room :
    (log : List Vouched) (cache : List Cached)
    → All (Backed log) cache
    → All (Backed log) (make_room cache)
unfolding make_room
All-make_room log cache h = elim (Bool-cases (leb cache_limit (length cache))) [
  | inl full ↦ rw full (All-drop_one log cache h)
  | inr free ↦ rw free h
]

length-cache_set :
    (entry : Cached) (cache : List Cached) → length (cache_set entry cache) ≤ suc (length cache)
unfolding cache_set
length-cache_set entry [] = omega arith
length-cache_set entry (e ∷ es) = ground (arith, length-cache_set entry es)

length-make_room :
    (cache : List Cached) → length cache ≤ cache_limit → length (make_room cache) < cache_limit
unfolding make_room
length-make_room [] h = omega arith
length-make_room (e ∷ es) h = ground arith

cached-Backed :
    (log : List Vouched) (token : List ℕ) (cache : List Cached) (e : Cached)
    → All (Backed log) cache
    → cached_for token cache ≡ some e
    → VouchedFor token e.device e.until log
unfolding cached_for
cached-Backed log token [] e h k = cc
cached-Backed log token (c ∷ cs) e (h, hs) k = elim (Bool-cases (c.token == token)) [
  | inl same ↦
      let hit : some c ≡ some e = rw (same, cached_for) at k in
      let entry : c ≡ e = cc in
      let own = (units_eq_iff c.token token).0 same in
      subst (λ (x : Cached). VouchedFor token x.device x.until log) entry
        (subst (λ (t : List ℕ). VouchedFor t c.device c.until log) own h)
  | inr other ↦ cached-Backed log token cs e hs (rw (other, cached_for) at k)
]

-- The log with what the table says of a token now.
abbrev pub noted : List Vouched → List ℕ → ℕ → Option DeviceToken → List Vouched
noted log token now_ms none = log
noted log token now_ms (some d) = record { token = token; device = d; at = now_ms } ∷ log

uncache-IsSound :
    (token : List ℕ) (cache : List Cached) (log : List Vouched)
    → IsSound cache log
    → IsSound (uncache token cache) log
unfolding uncache
uncache-IsSound token cache log s = record {
  within = omega (arith, length-filter-le (λ e. not (e.token == token)) cache, s.within);
  backed = All-filter (Backed log) (λ e. not (e.token == token)) cache s.backed;
}

later-IsSound :
    (v : Vouched) (cache : List Cached) (log : List Vouched)
    → IsSound cache log
    → IsSound cache (v ∷ log)
later-IsSound v cache log s = record { within = s.within; backed = All-later log v cache s.backed }

noted-IsSound :
    (token : List ℕ) (now_ms : ℕ) (o : Option DeviceToken) (cache : List Cached)
    (log : List Vouched)
    → IsSound cache log
    → IsSound cache (noted log token now_ms o)
noted-IsSound token now_ms none cache log s = s
noted-IsSound token now_ms (some d) cache log s = later-IsSound _ cache log s

either-IsSound :
    (b : Bool) (x y : Answered) (log : List Vouched)
    → IsSound x.cache log
    → IsSound y.cache log
    → IsSound (if b then x else y).cache log
either-IsSound true x y log h k = h
either-IsSound false x y log h k = k

either_answer :
    (b : Bool) (x y : Answered) (d : DeviceToken)
    → (x.answer ≡ device d → ⊥)
    → (if b then x else y).answer ≡ device d
    → y.answer ≡ device d
either_answer true x y d h k = absurd (h k)
either_answer false x y d h k = k

later_VouchedFor :
    (token : List ℕ) (d : DeviceToken) (until : ℕ) (log : List Vouched) (now_ms : ℕ)
    (o : Option DeviceToken) (asked : List ℕ)
    → VouchedFor token d until log
    → VouchedFor token d until (noted log asked now_ms o)
later_VouchedFor token d until log now_ms none asked h = h
later_VouchedFor token d until log now_ms (some d') asked h = inr h

module _ (sha256_hex : List ℕ → List ℕ) (cache : List Cached) (rows : List DeviceToken)
    (token : List ℕ) (now_ms clock : ℕ) (log : List Vouched) (sound : IsSound cache log) where
  admit-IsSound :
      (d : DeviceToken)
      → IsSound
          (admit sha256_hex cache rows token now_ms clock d).cache
          (noted log token now_ms (some d))
  admit-IsSound d = record {
    within = omega (
      arith,
      length-cache_set (record { token = token; device = d; until = now_ms + cache_ms })
          (make_room cache),
      length-make_room cache sound.within,
    );
    backed =
        All-cache_set (noted log token now_ms (some d))
          (record { token = token; device = d; until = now_ms + cache_ms }) (make_room cache)
          (inl (refl, refl, refl))
          (All-make_room (noted log token now_ms (some d)) cache
            (All-later log (record { token = token; device = d; at = now_ms }) cache sound.backed));
  }

  verified-IsSound :
      (o : Option DeviceToken)
      → IsSound
          (verified sha256_hex cache rows token now_ms clock o).cache
          (noted log token now_ms o)
  unfolding verified
  verified-IsSound none = uncache-IsSound token cache log sound
  verified-IsSound (some d) =
      either-IsSound d.revoked (refuse sha256_hex cache rows token)
        (admit sha256_hex cache rows token now_ms clock d) _
        (uncache-IsSound token cache _ (later-IsSound _ cache log sound)) (admit-IsSound d)

  -- What is answered after the table was asked is what it says now.
  verified-answer :
      (d : DeviceToken) (o : Option DeviceToken)
      → (verified sha256_hex cache rows token now_ms clock o).answer ≡ device d
      → VouchedFor token d (now_ms + cache_ms) (noted log token now_ms o)
  unfolding verified
  verified-answer d none h = cc
  verified-answer d (some d') h =
      let kept =
        either_answer d'.revoked (refuse sha256_hex cache rows token)
          (admit sha256_hex cache rows token now_ms clock d') d (λ wrong. cc) h in
      inl (refl, (let same : device d' ≡ device d = kept in cc), refl)

  pub from_cache-IsSound :
      (o : Option Cached)
      → IsSound
          (from_cache sha256_hex cache rows token now_ms clock o).cache
          (noted log token now_ms (find_device_by_token sha256_hex rows token))
  unfolding from_cache
  from_cache-IsSound none = verified-IsSound (find_device_by_token sha256_hex rows token)
  from_cache-IsSound (some e) =
      either-IsSound (ltb now_ms e.until)
        (record { answer = device e.device; cache = cache; rows = rows })
        (verified sha256_hex cache rows token now_ms clock
          (find_device_by_token sha256_hex rows token))
        _ (noted-IsSound token now_ms (find_device_by_token sha256_hex rows token) cache log sound)
        (verified-IsSound (find_device_by_token sha256_hex rows token))

  pub from_cache-answer :
      (d : DeviceToken) (o : Option Cached)
      → cached_for token cache ≡ o
      → (from_cache sha256_hex cache rows token now_ms clock o).answer ≡ device d
      → (until : ℕ) × (now_ms < until)
        × VouchedFor token d until
            (noted log token now_ms (find_device_by_token sha256_hex rows token))
  unfolding from_cache
  from_cache-answer d none k h = (
    now_ms + cache_ms,
    omega arith,
    verified-answer d (find_device_by_token sha256_hex rows token) h,
  )
  from_cache-answer d (some e) k h = elim (Bool-cases (ltb now_ms e.until)) [
    | inl fresh ↦ (
      e.until,
      ltb→lt now_ms e.until fresh,
      (let same : device e.device ≡ device d = rw fresh at h in
          later_VouchedFor token d e.until log now_ms _ token (
            subst (λ (x : DeviceToken). VouchedFor token x e.until log) (cc)
              (cached-Backed log token cache e sound.backed k))),
    )
    | inr stale ↦ (
      now_ms + cache_ms,
      omega arith,
      verified-answer d (find_device_by_token sha256_hex rows token) (rw stale at h),
    )
  ]
