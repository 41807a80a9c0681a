-- ===== src/Releases/Latest.antt =====
-- cloudflare-control/src/releases.ts: the offers of an organization are sorted, the newest first, and
-- the workstation finds the newest one that it may take.
use Prim.Native.String.{String}
use labkiosk.Shared.{
  ℕ, ◌≡◌, ◌≢◌, ◌↔◌, inl, inr, refl, sym, ap, ◌∙◌, Bool, true, false, Option, none, some, List, [],
  ◌∷◌, string_eq, leb, any, find, find-some, filter, All, IsSortedBy, sort-IsSortedBy,
  filter-IsSortedBy, Option-cases, arith,
}
use mathlib.Core.Path.{subst}
use labkiosk.Releases.{Version, Comparison, less, equal, greater, compare_versions}
use labkiosk.Releases.Total.{flip}
use labkiosk.Releases.Order.{compare_versions_turned, compare_versions_later}
use labkiosk.Releases.Offers.{
  ReleaseOffer, UpdateChannel, Tables, not_older, is_not_greater, offers_in, offered_releases,
}
use labkiosk.Releases.Eligible.{
  is_newer, is_greater, reachable, eligible_releases, first, is_security_update,
  security_release_for, workstation_offer, or_else_offer, if_newer, update_target_for,
}
use labkiosk.Releases.Choice.{All-find, All-first, some_same}
use labkiosk.Releases.Offers.{major_of}
use labkiosk.Releases.Eligible.{is_supported, is_allowed, highest_major}
use labkiosk.Releases.Choice.{choices}
use labkiosk.Releases.Target.{newer_than, newer_of_security}

-- The first of two offers is of no older version.
abbrev pub NotOlder : ReleaseOffer → ReleaseOffer → Type 0
NotOlder a b = not_older a b ≡ true

not_greater_of : (x : Comparison) → is_not_greater x ≡ true → x ≢ greater
not_greater_of x h e =
    (let wrong : is_not_greater greater ≡ true = ap is_not_greater (sym e) ∙ h in cc)

is_not_greater_of : (x : Comparison) → x ≢ greater → is_not_greater x ≡ true
is_not_greater_of less h = refl
is_not_greater_of equal h = refl
is_not_greater_of greater h = absurd (h refl)

not_greater_turned : (x : Comparison) → is_not_greater x ≡ false → is_not_greater (flip x) ≡ true
not_greater_turned less h = cc
not_greater_turned equal h = cc
not_greater_turned greater h = refl

NotOlder-trans : (a b c : ReleaseOffer) → NotOlder a b → NotOlder b c → NotOlder a c
NotOlder-trans a b c h k = is_not_greater_of (compare_versions c.version a.version) (
    compare_versions_later c.version b.version a.version
      (not_greater_of (compare_versions c.version b.version) k)
      (not_greater_of (compare_versions b.version a.version) h))

NotOlder-turned : (a b : ReleaseOffer) → not_older a b ≡ false → NotOlder b a
NotOlder-turned a b h =
    ap is_not_greater (compare_versions_turned b.version a.version)
    ∙ not_greater_turned (compare_versions b.version a.version) h

no_newer_of : (x : Comparison) → is_greater x ≡ false → is_not_greater x ≡ true
no_newer_of less h = refl
no_newer_of equal h = refl
no_newer_of greater h = cc

not_newer_of : (x : Comparison) → is_not_greater x ≡ true → is_greater x ≡ false
not_newer_of less h = refl
not_newer_of equal h = refl
not_newer_of greater h = cc

not_newer_later :
    (running : Version) (a b : ReleaseOffer)
    → newer_than running a ≡ false
    → NotOlder a b
    → newer_than running b ≡ false
unfolding is_newer
not_newer_later running a b h k = not_newer_of (compare_versions b.version running) (
    is_not_greater_of (compare_versions b.version running) (
      compare_versions_later b.version a.version running
        (not_greater_of (compare_versions b.version a.version) k)
        (not_greater_of (compare_versions a.version running)
          (no_newer_of (compare_versions a.version running) h))))

none_newer :
    (running : Version) (a : ReleaseOffer) (rest : List ReleaseOffer)
    → newer_than running a ≡ false
    → All (NotOlder a) rest
    → any (newer_than running) rest ≡ false
none_newer running a [] h k = refl
none_newer running a (b ∷ rest) h (k, ks) =
    let here = not_newer_later running a b h k in
    let there = none_newer running a rest h ks in ground arith

eligible-IsSortedBy :
    (releases : List ReleaseOffer) (running : Version) (group : Option String)
    → IsSortedBy NotOlder releases
    → IsSortedBy NotOlder (eligible_releases releases (some running) group)
unfolding eligible_releases reachable
eligible-IsSortedBy releases running group h =
    let open_to = filter (is_supported (some running)) releases in
    filter-IsSortedBy NotOlder
      (λ r.
        leb (major_of r.version) (highest_major running open_to (choices releases running group)))
      (choices releases running group)
      (filter-IsSortedBy NotOlder (is_allowed (some running) group) open_to
        (filter-IsSortedBy NotOlder (is_supported (some running)) releases h))

if_newer-none :
    (running : Version) (o : Option ReleaseOffer)
    → ((s : ReleaseOffer) → o ≡ some s → newer_than running s ≡ false)
    → if_newer running o ≡ none
if_newer-none running none h = refl
if_newer-none running (some s) h = rw (h s refl) refl

All-not :
    (q : ReleaseOffer → Bool) (xs : List ReleaseOffer)
    → any q xs ≡ false
    → All (λ x. q x ≡ false) xs
All-not q [] h = tt
All-not q (x ∷ xs) h = (ground arith, All-not q xs (ground arith))

found_not :
    (p q : ReleaseOffer → Bool) (xs : List ReleaseOffer) (s : ReleaseOffer)
    → any q xs ≡ false
    → or_else_offer (find p xs) (first xs) ≡ some s
    → q s ≡ false
found_not p q xs s h e = elim (Option-cases (find p xs)) [
  | inl f ↦
      (let head : first xs ≡ some s = rw f at e in
        All-first (λ x. q x ≡ false) xs s (All-not q xs h) head)
  | inr (t, f) ↦
      (let same : some t ≡ some s = rw f at e in
        All-find (λ x. q x ≡ false) p xs s (All-not q xs h) (f ∙ same))
]

abbrev target_of : Version → List ReleaseOffer → Option ReleaseOffer
target_of running xs =
    if_newer running (or_else_offer (find (is_security_update running) xs) (first xs))

not_newer_of_none :
    (running : Version) (o : Option ReleaseOffer) (s : ReleaseOffer)
    → if_newer running o ≡ none
    → o ≡ some s
    → newer_than running s ≡ false
not_newer_of_none running none s h e = cc
not_newer_of_none running (some t) s h e =
    subst (λ r. newer_than running r ≡ false) (some_same e) (ground arith)

first_not_newer :
    (running : Version) (x : ReleaseOffer) (xs : List ReleaseOffer)
    → target_of running (x ∷ xs) ≡ none
    → newer_than running x ≡ false
first_not_newer running x xs e = elim (Option-cases (find (is_security_update running) (x ∷ xs))) [
  | inl f ↦
      not_newer_of_none running
        (or_else_offer (find (is_security_update running) (x ∷ xs)) (some x)) x e
        (ap (λ o. or_else_offer o (some x)) f)
  | inr (s, f) ↦
      (let old =
          not_newer_of_none running
            (or_else_offer (find (is_security_update running) (x ∷ xs)) (some x)) s e
            (ap (λ o. or_else_offer o (some x)) f) in
        let new =
          newer_of_security running s (find-some (is_security_update running) (x ∷ xs) s f) in
        cc)
]

target_none_iff :
    (running : Version) (xs : List ReleaseOffer)
    → IsSortedBy NotOlder xs
    → (target_of running xs ≡ none) ↔ (any (newer_than running) xs ≡ false)
target_none_iff running [] h = (λ e. refl, λ e. refl)
target_none_iff running (x ∷ xs) (h, hs) = (
  λ e.
      (let here = first_not_newer running x xs e in
        let there = none_newer running x xs here h in ground arith),
  λ e.
      if_newer-none running (or_else_offer (find (is_security_update running) (x ∷ xs)) (some x))
        (λ s k. found_not (is_security_update running) (newer_than running) (x ∷ xs) s e k),
)

-- The offers of an organization are sorted, the newest first.
offered_releases-IsSortedBy :
    (db : Tables) (channel : Option UpdateChannel) (tenant : Option String) (now : ℕ)
    (architecture : String)
    → IsSortedBy NotOlder (offered_releases db channel tenant now architecture)
unfolding offered_releases
offered_releases-IsSortedBy db channel tenant now architecture =
    sort-IsSortedBy NotOlder NotOlder-trans not_older (λ a b e. e) NotOlder-turned
      (offers_in db channel tenant now architecture)

-- A workstation is sent for none of its organization's releases exactly if none that it may take is
-- newer than what it runs.
pub update_target_for-none_iff :
    (db : Tables) (channel : Option UpdateChannel) (tenant : Option String) (now : ℕ)
    (architecture : String) (running : Version) (group : Option String)
    → (update_target_for (offered_releases db channel tenant now architecture) (some running) group
        ≡ none)
      ↔ (any (newer_than running) (
            eligible_releases
              (offered_releases db channel tenant now architecture)
              (some running)
              group)
          ≡ false)
unfolding update_target_for workstation_offer security_release_for
update_target_for-none_iff db channel tenant now architecture running group =
    let offers = offered_releases db channel tenant now architecture in
    target_none_iff running (eligible_releases offers (some running) group) (
      eligible-IsSortedBy offers running group
        (offered_releases-IsSortedBy db channel tenant now architecture))
