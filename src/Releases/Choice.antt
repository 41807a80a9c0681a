-- ===== src/Releases/Choice.antt =====
-- cloudflare-control/src/releases.ts: how far a workstation is moved by a release, and which one it fetches.
use Prim.Native.String.{String}
use labkiosk.Shared.{
  ℕ, ◌≤◌, ◌≡◌, ◌⊎◌, inl, inr, refl, sym, ap, ◌∙◌, Bool, true, false, not, ◌&&◌, ◌||◌, Option, some,
  List, [], ◌∷◌, map, min, nat_eq, string_eq, leb, ltb, leb→le, any, any-filter, find, filter, All,
  Bool-cases, arith,
}
use mathlib.Core.Path.{subst}
use labkiosk.Releases.{Version}
use labkiosk.Releases.Offers.{ReleaseOffer, is_end_of_life, major_of}
use labkiosk.Releases.Eligible.{
  above, is_supported, is_pilot, is_allowed, least, next_major, higher_majors, newer_in_major,
  major_limit, highest_major, reachable, eligible_releases, first,
}

-- The releases that may be taken at all, of whatever major.
abbrev pub choices : List ReleaseOffer → Version → Option String → List ReleaseOffer
choices releases running group =
    filter (is_allowed (some running) group) (filter (is_supported (some running)) releases)

abbrev is_between : Version → ReleaseOffer → ReleaseOffer → Bool
is_between running r s =
    is_supported (some running) s
    && (ltb (major_of running) (major_of s.version)
        && ltb (major_of s.version) (major_of r.version))

-- A major at a time: no release is newer in the major that runs, and none stands in a major between.
abbrev pub IsNextMajor : List ReleaseOffer → Version → Option String → ReleaseOffer → Type 0
IsNextMajor releases running group r =
    (any (newer_in_major running) (choices releases running group) ≡ false)
    × (any (is_between running r) releases ≡ false)

pub record MayTake (releases : List ReleaseOffer) (running : Version) (group : Option String)
    (r : ReleaseOffer) : Type 0 where
  pub alive : is_end_of_life r.support ≡ false
  pub opened :
      (r.gated && above (some running) r.version && not (is_pilot r.pilot_group group)) ≡ false
  pub stepwise : (major_of r.version ≤ major_of running) ⊎ IsNextMajor releases running group r

below_both :
    (m n k : ℕ) (ns : List ℕ)
    → any (λ n. ltb n k) (min m n ∷ ns) ≡ false
    → any (λ n. ltb n k) (m ∷ n ∷ ns) ≡ false
below_both m n k ns h = ground arith

none_below_least :
    (m : ℕ) (ns : List ℕ) (k : ℕ) → k ≤ least m ns → any (λ n. ltb n k) (m ∷ ns) ≡ false
none_below_least m [] k h = ground arith
none_below_least m (n ∷ ns) k h = below_both m n k ns (none_below_least (min m n) ns k h)

any-major :
    (p : ℕ → Bool) (rs : List ReleaseOffer)
    → any p (map (λ r. major_of r.version) rs) ≡ any (λ r. p (major_of r.version)) rs
any-major p [] = refl
any-major p (r ∷ rs) = ap (λ t. p (major_of r.version) || t) (any-major p rs)

any_between :
    (running : Version) (r : ReleaseOffer) (releases : List ReleaseOffer)
    → any
        (λ n. ltb n (major_of r.version))
        (higher_majors running (filter (is_supported (some running)) releases))
      ≡ any (is_between running r) releases
any_between running r releases =
    let open_to = filter (is_supported (some running)) releases in
    any-filter (λ m. ltb (major_of running) m) (λ n. ltb n (major_of r.version))
      (map (λ s. major_of s.version) open_to)
    ∙ any-major (λ m. ltb (major_of running) m && ltb m (major_of r.version)) open_to
    ∙ any-filter (is_supported (some running))
        (λ s.
          ltb (major_of running) (major_of s.version)
          && ltb (major_of s.version) (major_of r.version))
        releases

next_major_lem :
    (major k : ℕ) (higher : List ℕ)
    → k ≤ next_major major higher
    → (k ≤ major) ⊎ (any (λ n. ltb n k) higher ≡ false)
next_major_lem major k [] h = inl h
next_major_lem major k (m ∷ ms) h = inr (none_below_least m ms k h)

limit_lem :
    (newer : Bool) (major k : ℕ) (higher : List ℕ)
    → k ≤ major_limit newer major higher
    → (k ≤ major) ⊎ ((newer ≡ false) × (any (λ n. ltb n k) higher ≡ false))
limit_lem true major k higher h = inl h
limit_lem false major k higher h = elim (next_major_lem major k higher h) [
  | inl low ↦ inl low
  | inr above_none ↦ inr (refl, above_none)
]

stepwise_lem :
    (releases : List ReleaseOffer) (running : Version) (group : Option String) (r : ReleaseOffer)
    → leb (major_of r.version) (
        highest_major running
          (filter (is_supported (some running)) releases)
          (choices releases running group))
      ≡ true
    → (major_of r.version ≤ major_of running) ⊎ IsNextMajor releases running group r
unfolding highest_major
stepwise_lem releases running group r h =
    let open_to = filter (is_supported (some running)) releases in
    elim (limit_lem (any (newer_in_major running) (choices releases running group))
      (major_of running) (major_of r.version) (higher_majors running open_to)
      (leb→le (major_of r.version) (highest_major running open_to (choices releases running group))
        h)) [
          | inl low ↦ inl low
          | inr (no_newer, none_between) ↦
              inr (no_newer, sym (any_between running r releases) ∙ none_between)
        ]

pub some_same {ℓ} : {A : Type ℓ} {a b : A} → some a ≡ some b → a ≡ b
some_same e = cc

-- What passes a test and has `Q` has `P`.
All-passed {ℓ κ ι} :
    {A : Type ℓ} (Q : A → Type κ) (P : A → Type ι) (p : A → Bool) (xs : List A)
    → ((x : A) → Q x → p x ≡ true → P x)
    → All Q xs
    → All P (filter p xs)
All-passed Q P p [] f h = tt
All-passed Q P p (x ∷ xs) f (h, hs) = elim (Bool-cases (p x)) [
  | inl e ↦ rw e (f x h e, All-passed Q P p xs f hs)
  | inr e ↦ rw e (All-passed Q P p xs f hs)
]

All-itself {ℓ} : {A : Type ℓ} (xs : List A) → All (λ x. x ≡ x) xs
All-itself [] = tt
All-itself (x ∷ xs) = (refl, All-itself xs)

may_take :
    (releases : List ReleaseOffer) (running : Version) (group : Option String) (r : ReleaseOffer)
    → is_supported (some running) r ≡ true
    → is_allowed (some running) group r ≡ true
    → leb (major_of r.version) (
        highest_major running
          (filter (is_supported (some running)) releases)
          (choices releases running group))
      ≡ true
    → MayTake releases running group r
may_take releases running group r s a l = record {
  alive = ground arith;
  opened = ground arith;
  stepwise = stepwise_lem releases running group r l;
}

abbrev IsSupported : Version → ReleaseOffer → Type 0
IsSupported running r = is_supported (some running) r ≡ true

pub eligible_lem :
    (releases : List ReleaseOffer) (running : Version) (group : Option String)
    → All (MayTake releases running group) (eligible_releases releases (some running) group)
unfolding eligible_releases reachable
eligible_lem releases running group =
    let open_to = filter (is_supported (some running)) releases in
    All-passed (λ r. IsSupported running r × (is_allowed (some running) group r ≡ true))
      (MayTake releases running group)
      (λ r.
        leb (major_of r.version) (highest_major running open_to (choices releases running group)))
      (choices releases running group) (λ r (s, a) l. may_take releases running group r s a l)
      (All-passed (IsSupported running)
        (λ r. IsSupported running r × (is_allowed (some running) group r ≡ true))
        (is_allowed (some running) group) open_to (λ r s a. (s, a))
        (All-passed (λ r. r ≡ r) (IsSupported running) (is_supported (some running)) releases
          (λ r e s. s) (All-itself releases)))

-- A found item has what every item has.
pub All-find {ℓ κ} :
    {A : Type ℓ} (P : A → Type κ) (p : A → Bool) (xs : List A) (y : A)
    → All P xs
    → find p xs ≡ some y
    → P y
All-find P p [] y h e = cc
All-find P p (x ∷ xs) y (h, hs) e = elim (Bool-cases (p x)) [
  | inl k ↦ (let same = rw k at e in subst P (some_same same) h)
  | inr k ↦ (let later = rw k at e in All-find P p xs y hs later)
]

pub All-first :
    (P : ReleaseOffer → Type 0) (xs : List ReleaseOffer) (y : ReleaseOffer)
    → All P xs
    → first xs ≡ some y
    → P y
All-first P [] y h e = cc
All-first P (x ∷ xs) y (h, hs) e = subst P (some_same e) h
