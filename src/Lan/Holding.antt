-- ===== src/Lan/Holding.antt =====
-- cloudflare-control/src/lan_sharing.ts `lanDecision`: which workstation waits for its site.
use Prim.Native.String.{String}
use labkiosk.Shared.{
  ℕ, ◌+◌, ◌*◌, ◌<◌, ◌≡◌, ◌↔◌, refl, false, Option, none, some, List, All, AtLeast, arith,
}
use labkiosk.Lan.{site_key}
use labkiosk.Lan.Decision.{SiteMember, hold, waited_long, lan_decision, lan_decision-hold_lem}
use labkiosk.Lan.Neighbours.{IsHolder, IsSeed, no-IsHolder_iff, seeds-AtLeast}

-- Less than an hour has gone since it began to wait.
abbrev pub IsShort : Option ℕ → ℕ → Type 0
IsShort none now = Unit
IsShort (some since) now = now < since + 60 * 60 * 1000

waited_long_iff :
    (held_since : Option ℕ) (now : ℕ)
    → (waited_long held_since now ≡ false) ↔ IsShort held_since now
waited_long_iff none now = (λ h. tt, λ h. refl)
waited_long_iff (some since) now = (λ h. ground arith, λ h. ground arith)

-- No other workstation of the site holds the release, at least two of them fetch it or were told to in
-- the last five minutes, and this one has not waited for an hour.
abbrev pub MustWait : SiteMember → String → List SiteMember → Option ℕ → ℕ → Type 0
MustWait member version others held_since now =
    All (λ o. ¬ IsHolder member version now o) others
    × AtLeast (IsSeed member version now) 2 others
    × IsShort held_since now

-- A workstation is made to wait exactly if its site is known, no other workstation of the site holds
-- the release, at least two others of the site fetch it or were told to in the last five minutes and
-- neither failed nor fetch another, and it has not waited for an hour.
pub lan_decision-hold_iff :
    (member : SiteMember) (version : String) (others : List SiteMember) (held_since : Option ℕ)
    (now : ℕ)
    → (lan_decision member version others held_since now ≡ hold) ↔ (
        ((site : List ℕ) × (site_key member.ip member.lan ≡ some site))
        × MustWait member version others held_since now)
lan_decision-hold_iff member version others held_since now =
    let (to, from) = lan_decision-hold_lem member version others held_since now in
    let short = waited_long_iff held_since now in
    (
      λ h.
          let (site, known, (free, two, new)) = to h in
          (
            (site, known),
            (
              (no-IsHolder_iff member site known version now others).0 free,
              (seeds-AtLeast member site known version now 2 others).0 two,
              short.0 new,
            ),
          ),
      λ ((site, known), (free, two, new)). from (
        site,
        known,
        (
          (no-IsHolder_iff member site known version now others).1 free,
          (seeds-AtLeast member site known version now 2 others).1 two,
          short.1 new,
        ),
      ),
    )
