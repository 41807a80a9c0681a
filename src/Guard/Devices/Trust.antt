-- ===== src/Guard/Devices/Trust.antt =====
-- How long a device token is trusted without asking the table again.
use labkiosk.Shared.{
  ℕ, ◌<◌, ◌≡◌, refl, not, Option, none, some, List, [], ◌∷◌, String, string_eq, units_comparable,
  All-filter, arith, length-filter-le,
}
use labkiosk.Guard.Devices.{
  DeviceToken, Cached, device, forget_device_token, cached_for, token_of, find_device_by_token,
  for_token, require_device, is_of_client,
}
use labkiosk.Guard.Devices.Vouched.{
  Backed, IsSound, Vouched, VouchedFor, from_cache-IsSound, from_cache-answer, noted,
}

-- What happens to one isolate: a request, the table changed by anyone, a workstation forgotten.
pub data Event : Type 0 where
  request : Option (List ℕ) → ℕ → ℕ → Event
  table : List DeviceToken → Event
  forget : String → String → Event

-- The tokens kept, the table, and what the table has said.
pub record World : Type 0 where
  pub cache : List Cached
  pub rows : List DeviceToken
  pub log : List Vouched

module _ (sha256_hex : List ℕ → List ℕ) where
  abbrev pub asked : World → Option (List ℕ) → ℕ → List Vouched
  asked w none now_ms = w.log
  asked w (some token) now_ms =
      noted w.log token now_ms (find_device_by_token sha256_hex w.rows token)

  unfoldable pub step : World → Event → World
  step w (request auth now_ms clock) =
      let answered = require_device sha256_hex w.cache w.rows auth now_ms clock in
      record { cache = answered.cache; rows = answered.rows; log = asked w (token_of auth) now_ms }
  step w (table rows) = record w { rows = rows }
  step w (forget tenant_id client_id) = record w {
    cache = forget_device_token w.cache tenant_id client_id;
  }

  unfoldable pub run : World → List Event → World
  run w [] = w
  run w (e ∷ es) = run (step w e) es

  abbrev IsSoundWorld : World → Type 0
  IsSoundWorld w = IsSound w.cache w.log

  answered-IsSound :
      (w : World) (o : Option (List ℕ)) (now_ms clock : ℕ)
      → IsSoundWorld w
      → IsSound (for_token sha256_hex w.cache w.rows now_ms clock o).cache (asked w o now_ms)
  unfolding for_token
  answered-IsSound w none now_ms clock s = s
  answered-IsSound w (some token) now_ms clock s =
      from_cache-IsSound sha256_hex w.cache w.rows token now_ms clock w.log s
        (cached_for token w.cache)

  step-IsSound : (w : World) (e : Event) → IsSoundWorld w → IsSoundWorld (step w e)
  unfolding step forget_device_token require_device
  step-IsSound w (request auth now_ms clock) s = answered-IsSound w (token_of auth) now_ms clock s
  step-IsSound w (table rows) s = s
  step-IsSound w (forget tenant_id client_id) s = record {
    within =
        omega (
          arith,
          length-filter-le (λ e. not (is_of_client tenant_id client_id e)) w.cache,
          s.within,
        );
    backed =
        All-filter (Backed w.log) (λ e. not (is_of_client tenant_id client_id e)) w.cache s.backed;
  }

  -- Whatever happens, at most 20,000 tokens are kept, each of them until a minute after the table
  -- vouched for it.
  pub run-IsSound :
      (w : World) (events : List Event)
      → IsSound w.cache w.log
      → IsSound (run w events).cache (run w events).log
  unfolding run
  run-IsSound w [] s = s
  run-IsSound w (e ∷ es) s = run-IsSound (step w e) es (step-IsSound w e s)

  let_in :
      (w : World) (o : Option (List ℕ)) (now_ms clock : ℕ) (d : DeviceToken)
      → IsSoundWorld w
      → (for_token sha256_hex w.cache w.rows now_ms clock o).answer ≡ device d
      → (token : List ℕ) × (until : ℕ) × (o ≡ some token)
        × (now_ms < until)
        × VouchedFor token d until (asked w (some token) now_ms)
  unfolding for_token
  let_in w none now_ms clock d s h = cc
  let_in w (some token) now_ms clock d s h =
      let (until, later, vouched) =
        from_cache-answer sha256_hex w.cache w.rows token now_ms clock w.log s d
          (cached_for token w.cache) refl h in
      (token, until, refl, later, vouched)

  -- After any requests, changes of the table and forgotten workstations, a request is let in as a
  -- workstation only if the table vouched for its token less than a minute before, or now.
  pub let_in_recently :
      (w : World) (events : List Event) (auth : Option (List ℕ)) (now_ms clock : ℕ)
      (d : DeviceToken)
      → IsSound w.cache w.log
      → (require_device sha256_hex
          (run w events).cache
          (run w events).rows
          auth
          now_ms
          clock).answer
        ≡ device d
      → (token : List ℕ) × (until : ℕ) × (token_of auth ≡ some token)
        × (now_ms < until)
        × VouchedFor token d until (asked (run w events) (some token) now_ms)
  unfolding require_device
  let_in_recently w events auth now_ms clock d s h =
      let_in (run w events) (token_of auth) now_ms clock d (run-IsSound w events s) h
