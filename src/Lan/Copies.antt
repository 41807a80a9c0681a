-- ===== src/Lan/Copies.antt =====
-- cloudflare-control/src/lan_sharing.ts `lanPeers`: whom a workstation is told to copy a release from.
use Prim.Native.String.{String}
use labkiosk.Shared.{
  ℕ, zero, suc, ◌≤◌, ◌≡◌, ◌↔◌, inl, inr, refl, sym, ap, ◌∙◌, true, ◌&&◌, Option, none, some, List,
  [], ◌∷◌, length, any, any-filter, All, All-imp, Any, any-Any, AtLeast, filter-filter,
  units_comparable, units_eq_iff, arith,
}
use labkiosk.Lan.{LanReport, site_key}
use labkiosk.Lan.Decision.{SiteMember, holds, at_site}
use labkiosk.Lan.Neighbours.{IsHolder, IsHolder-iff, holders-AtLeast}
use labkiosk.Lan.Peers.{
  lan_peers, lan_has_address, has_address, IsOneOf, holders_at, site_holders, lan_peers_lem,
}

-- The address that a workstation reports.
abbrev pub IsAddressOf : List ℕ → Option LanReport → Type 0
IsAddressOf address none = ⊥
IsAddressOf address (some lan) = lan.address ≡ address

has_address-IsAddressOf :
    (address : List ℕ) (lan : Option LanReport)
    → lan_has_address lan address ≡ true
    → IsAddressOf address lan
has_address-IsAddressOf address none h = cc
has_address-IsAddressOf address (some lan) h = (units_eq_iff lan.address address).0 h

module _ (member : SiteMember) (version : String) (others : List SiteMember) (now : ℕ) where
  -- An address of some other workstation of the site that holds the release.
  abbrev pub IsHolderAddress : List ℕ → Type 0
  IsHolderAddress address =
      Any (λ o. IsHolder member version now o × IsAddressOf address o.lan) others

  one_of_lem :
      (key : Option (List ℕ)) (address : List ℕ)
      → site_key member.ip member.lan ≡ key
      → IsOneOf (holders_at key member version others now) address
      → IsHolderAddress address
  one_of_lem none address e h = cc
  one_of_lem (some site) address e h =
      any-Any (λ o. IsHolder member version now o × IsAddressOf address o.lan)
        (λ o. (at_site member site o && holds o version now) && has_address address o) others
        (λ o k. (
          (IsHolder-iff member site e version now o).0 (ground arith),
          has_address-IsAddressOf address o.lan (ground arith),
        ))
        (sym (
            ap (any (has_address address))
              (filter-filter (λ o. holds o version now) (at_site member site) others)
            ∙ any-filter (λ o. at_site member site o && holds o version now) (has_address address)
                others)
          ∙ h)

  no_site_lem :
      (n : ℕ) (os : List SiteMember)
      → site_key member.ip member.lan ≡ none
      → AtLeast (IsHolder member version now) n os
      → n ≡ 0
  no_site_lem zero os e h = refl
  no_site_lem (suc n) [] e h = absurd h
  no_site_lem (suc n) (o ∷ os) e h = elim h [
    | inl (((_, (site, known, _)), _), _) ↦ let wrong : none ≡ some site = sym e ∙ known in cc
    | inr k ↦ no_site_lem (suc n) os e k
  ]

  count_lem :
      (key : Option (List ℕ)) (n : ℕ)
      → site_key member.ip member.lan ≡ key
      → (n ≤ length (holders_at key member version others now))
        ↔ AtLeast (IsHolder member version now) n others
  count_lem none zero e = (λ h. tt, λ h. omega arith)
  count_lem none (suc n) e =
      (λ h. absurd (omega arith), λ h. let empty = no_site_lem (suc n) others e h in omega arith)
  count_lem (some site) n e = holders-AtLeast member site e version now n others

  -- With a random key for each workstation that holds the release, a workstation is told eight addresses
  -- at most, and as many as that allows: of up to eight, some number is told exactly if so many other
  -- workstations of its site hold the release. Each address that is told is one of such a workstation.
  pub lan_peers-AreHolders :
      (order : List ℕ) (n : ℕ)
      → length order ≡ length (site_holders member version others now)
      → n ≤ 8
      → (length (lan_peers member version others now order) ≤ 8)
        × ((n ≤ length (lan_peers member version others now order))
            ↔ AtLeast (IsHolder member version now) n others)
        × All IsHolderAddress (lan_peers member version others now order)
  lan_peers-AreHolders order n k small =
      let (count, found) = lan_peers_lem member version others now order k in
      let (to, from) = count_lem (site_key member.ip member.lan) n refl in
      (
        omega arith,
        (λ h. to (omega arith), λ h. let enough = from h in omega arith),
        All-imp (IsOneOf (site_holders member version others now)) IsHolderAddress
            (lan_peers member version others now order)
            (λ address h. one_of_lem (site_key member.ip member.lan) address refl h) found,
      )
