-- ===== src/Releases/Target.antt =====
-- cloudflare-control/src/releases.ts: the release that a workstation fetches next.
use Prim.Native.String.{String}
use labkiosk.Shared.{
  ◌≡◌, inl, inr, sym, ◌∙◌, ◌&&◌, ◌==◌, nat_eq, Bool, true, false, Option, none, some, List, [], ◌∷◌,
  string_eq, any, find, find-some, find-none, Bool-cases, Option-cases, arith,
}
use mathlib.Core.Path.{subst}
use labkiosk.Releases.{Version}
use labkiosk.Releases.Offers.{ReleaseOffer, is_security}
use labkiosk.Releases.Eligible.{
  is_newer, eligible_releases, first, is_security_update, security_release_for, workstation_offer,
  or_else_offer, if_newer, update_target_for,
}
use labkiosk.Releases.Choice.{MayTake, eligible_lem, All-find, All-first, some_same}

abbrev pub newer_than : Version → ReleaseOffer → Bool
newer_than running r = is_newer r.version running

pub newer_of_security :
    (running : Version) (r : ReleaseOffer)
    → is_security_update running r ≡ true
    → is_newer r.version running ≡ true
newer_of_security running r h = ground arith

pub if_newer-some :
    (running : Version) (o : Option ReleaseOffer) (r : ReleaseOffer)
    → if_newer running o ≡ some r
    → (o ≡ some r) × (is_newer r.version running ≡ true)
if_newer-some running none r h = cc
if_newer-some running (some s) r h = elim (Bool-cases (is_newer s.version running)) [
  | inl e ↦
      (let same = rw e at h in
        (same, subst (λ t. is_newer t.version running ≡ true) (some_same same) e))
  | inr e ↦ (let wrong : none ≡ some r = rw e at h in cc)
]

pub any_of_find :
    (p : ReleaseOffer → Bool) (xs : List ReleaseOffer) (y : ReleaseOffer)
    → find p xs ≡ some y
    → any p xs ≡ true
any_of_find p [] y h = cc
any_of_find p (x ∷ xs) y h = let ih = any_of_find p xs y in ground arith

first-any :
    (p : ReleaseOffer → Bool) (xs : List ReleaseOffer) (y : ReleaseOffer)
    → first xs ≡ some y
    → any p xs ≡ false
    → p y ≡ false
first-any p [] y h k = cc
first-any p (x ∷ xs) y h k = subst (λ t. p t ≡ false) (some_same h) (ground arith)

-- A security release, newer than what runs and of its major and minor.
abbrev pub is_line_fix : Version → ReleaseOffer → Bool
is_line_fix running r =
    is_security r.kind
    && (r.version.key.core.major == running.key.core.major
        && r.version.key.core.minor == running.key.core.minor)
    && is_newer r.version running

-- A release is fetched only if it is newer than what runs and the workstation may take it, and it is a
-- security release of its line whenever there is one that it may take.
pub update_target_for-some :
    (releases : List ReleaseOffer) (running : Version) (group : Option String) (r : ReleaseOffer)
    → update_target_for releases (some running) group ≡ some r
    → (is_newer r.version running ≡ true)
      × MayTake releases running group r
      × (is_line_fix running r
          ≡ any (is_line_fix running) (eligible_releases releases (some running) group))
unfolding update_target_for workstation_offer security_release_for
update_target_for-some releases running group r h =
    let choice = eligible_releases releases (some running) group in
    let found = find (is_security_update running) choice in
    let (target, newer) = if_newer-some running (or_else_offer found (first choice)) r h in
    elim (Option-cases found) [
      | inl e ↦
          (let head : first choice ≡ some r = rw e at target in
            let none_there = find-none (is_security_update running) choice e in
            (
              newer,
              All-first (MayTake releases running group) choice r
                  (eligible_lem releases running group) head,
              first-any (is_security_update running) choice r head none_there ∙ sym none_there,
            ))
      | inr (s, e) ↦
          (let same : some s ≡ some r = rw e at target in
            let e2 = e ∙ same in
            (
              newer,
              All-find (MayTake releases running group) (is_security_update running) choice r
                  (eligible_lem releases running group) e2,
              find-some (is_security_update running) choice r e2
                  ∙ sym (any_of_find (is_security_update running) choice r e2),
            ))
    ]
