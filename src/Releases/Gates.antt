-- ===== src/Releases/Gates.antt =====
-- cloudflare-control/src/releases.ts: from the tables to the release that a workstation fetches: a release
-- in its channel, of a major that its organization may move to.
use Prim.Native.String.{String}
use labkiosk.Shared.{
  ℕ, ◌≤◌, ◌≡◌, ◌⊎◌, inl, inr, refl, sym, ap, ◌∙◌, Bool, true, false, not, ◌&&◌, ◌||◌, Option, none,
  some, List, [], ◌∷◌, map, ◌==◌, nat_eq, string_eq, leb, any, find, filter, All, All-map, All-imp,
  All-filter, All-sort, Bool-cases, Option-cases, arith,
}
use labkiosk.Releases.{Version, VersionKey, version_key, version_with, release_version}
use labkiosk.Releases.Offers.{
  ReleaseOffer, ReleaseRow, UpdateChannel, Tables, Listed, pilot_of, grant_of, access_of, major_of,
  listed_as, listed, is_offered, is_built_for, offer_of, not_older, rows_for, offers_in,
  offered_releases,
}
use labkiosk.Releases.Majors.{
  MajorAccess, MajorGrantRow, free, closed, requested, available, pilot, confirmed, major_gated,
}
use labkiosk.Releases.Eligible.{
  above, is_supported, is_allowed, is_pilot, is_security_update, highest_major, reachable,
  eligible_releases, first, security_release_for, workstation_offer, or_else_offer,
  update_target_for,
}
use labkiosk.Releases.Choice.{choices, All-find, All-first, some_same}
use labkiosk.Releases.Target.{if_newer-some, update_target_for-some}

-- What every release has, the one that is fetched has.
target-has :
    (P : ReleaseOffer → Type 0) (releases : List ReleaseOffer) (running : Version)
    (group : Option String) (r : ReleaseOffer)
    → All P releases
    → update_target_for releases (some running) group ≡ some r
    → P r
unfolding update_target_for workstation_offer security_release_for eligible_releases reachable
target-has P releases running group r h e =
    let open_to = filter (is_supported (some running)) releases in
    let choice = eligible_releases releases (some running) group in
    let all_choice =
      All-filter P
        (λ r.
          leb (major_of r.version) (highest_major running open_to (choices releases running group)))
        (choices releases running group)
        (All-filter P (is_allowed (some running) group) open_to
          (All-filter P (is_supported (some running)) releases h)) in
    let found = find (is_security_update running) choice in
    let (target, _) = if_newer-some running (or_else_offer found (first choice)) r e in
    elim (Option-cases found) [
      | inl f ↦
          (let head : first choice ≡ some r = rw f at target in
            All-first P choice r all_choice head)
      | inr (s, f) ↦
          (let same : some s ≡ some r = rw f at target in
            All-find P (is_security_update running) choice r all_choice (f ∙ same))
    ]

-- The row of a release: not revoked, of the channel or a security release, with a build for the
-- architecture, and named by the version.
abbrev pub is_row_for : Option UpdateChannel → String → String → ReleaseRow → Bool
is_row_for channel architecture version row =
    is_offered channel row && (is_built_for architecture row && row.version == version)

-- Where the organization stands with the major: it is free, confirmed or tried on the group.
abbrev pub IsOpen : Tables → Option String → ℕ → Option String → Type 0
IsOpen db tenant major group =
    (access_of db tenant major ≡ free)
    ⊎ (access_of db tenant major ≡ confirmed)
    ⊎ ((access_of db tenant major ≡ pilot)
        × (is_pilot (pilot_of pilot (grant_of db tenant major)) group ≡ true))

permitted_of :
    (access : MajorAccess) (grant : Option MajorGrantRow) (group : Option String)
    → (major_gated access && not (is_pilot (pilot_of access grant) group)) ≡ false
    → (access ≡ free)
      ⊎ (access ≡ confirmed)
      ⊎ ((access ≡ pilot) × (is_pilot (pilot_of pilot grant) group ≡ true))
permitted_of free grant group h = inl refl
permitted_of confirmed grant group h = inr (inl refl)
permitted_of pilot grant group h = inr (inr (refl, ground arith))
permitted_of closed grant none h = cc
permitted_of closed grant (some g) h = cc
permitted_of requested grant none h = cc
permitted_of requested grant (some g) h = cc
permitted_of available grant none h = cc
permitted_of available grant (some g) h = cc

abbrev name_of_version : Version → String
name_of_version v = v.name

version_with-name :
    (version : String) (key : Option VersionKey) (v : Version)
    → version_with version key ≡ some v
    → (version == v.name) ≡ true
version_with-name version none v h = cc
version_with-name version (some key) v h =
    let same : version ≡ v.name = ap name_of_version (some_same h) in
    (string_eq.same_iff version v.name).1 same

release_version-name :
    (version : String) (v : Version) → release_version version ≡ some v → (version == v.name) ≡ true
unfolding release_version
release_version-name version v h = version_with-name version (version_key version) v h

or_right : (b : Bool) {c : Bool} → c ≡ true → (b || c) ≡ true
or_right true h = refl
or_right false h = h

module _ (channel : Option UpdateChannel) (architecture : String) where
  abbrev HasRow : List ReleaseRow → Listed → Type 0
  HasRow rows l = any (is_row_for channel architecture l.version.name) rows ≡ true

  HasRow-cons :
      (row : ReleaseRow) (rows : List ReleaseRow) (ls : List Listed)
      → All (HasRow rows) ls
      → All (HasRow (row ∷ rows)) ls
  HasRow-cons row rows [] h = tt
  HasRow-cons row rows (l ∷ ls) (h, hs) =
      (or_right (is_row_for channel architecture l.version.name row) h, HasRow-cons row rows ls hs)

  row_here :
      (row : ReleaseRow) (v : Version) (rows : List ReleaseRow)
      → is_offered channel row ≡ true
      → is_built_for architecture row ≡ true
      → (row.version == v.name) ≡ true
      → any (is_row_for channel architecture v.name) (row ∷ rows) ≡ true
  row_here row v rows o b n = ground arith

  -- One row more: it is listed if its version is one and it has a build.
  step :
      (row : ReleaseRow) (rows : List ReleaseRow) (version : Option Version) (ls : List Listed)
      → is_offered channel row ≡ true
      → ((v : Version) → version ≡ some v → (row.version == v.name) ≡ true)
      → All (HasRow (row ∷ rows)) (filter (λ l. is_built_for architecture l.row) ls)
      → All
          (HasRow (row ∷ rows))
          (filter (λ l. is_built_for architecture l.row) (listed_as version row ls))
  step row rows none ls o n h = h
  step row rows (some v) ls o n h = elim (Bool-cases (is_built_for architecture row)) [
    | inl b ↦ rw b (row_here row v rows o b (n v refl), h)
    | inr b ↦ rw b h
  ]

  rows_for_lem :
      (rows : List ReleaseRow)
      → All (HasRow rows) (
          filter (λ l. is_built_for architecture l.row) (listed (filter (is_offered channel) rows)))
  rows_for_lem [] = tt
  rows_for_lem (row ∷ rows) = elim (Bool-cases (is_offered channel row)) [
    | inl o ↦ rw o (
        step row rows (release_version row.version) (listed (filter (is_offered channel) rows)) o
          (λ v e. release_version-name row.version v e)
          (HasRow-cons row rows
            (filter (λ l. is_built_for architecture l.row)
              (listed (filter (is_offered channel) rows)))
            (rows_for_lem rows)))
    | inr o ↦ rw o (
        HasRow-cons row rows
          (filter (λ l. is_built_for architecture l.row)
            (listed (filter (is_offered channel) rows)))
          (rows_for_lem rows))
  ]

-- What the tables say of an offer.
record FromTables (db : Tables) (channel : Option UpdateChannel) (tenant : Option String)
    (architecture : String) (o : ReleaseOffer) : Type 0 where
  row : any (is_row_for channel architecture o.version.name) db.releases ≡ true
  gate : o.gated ≡ major_gated (access_of db tenant (major_of o.version))
  group :
      o.pilot_group
      ≡ pilot_of
          (access_of db tenant (major_of o.version))
          (grant_of db tenant (major_of o.version))

offered_lem :
    (db : Tables) (channel : Option UpdateChannel) (tenant : Option String) (now : ℕ)
    (architecture : String)
    → All
        (FromTables db channel tenant architecture)
        (offered_releases db channel tenant now architecture)
unfolding offered_releases offers_in
offered_lem db channel tenant now architecture =
    let rows = rows_for db channel architecture in
    All-sort not_older (FromTables db channel tenant architecture)
      (map (offer_of db channel tenant now rows) rows)
      (All-map (FromTables db channel tenant architecture) (offer_of db channel tenant now rows)
        rows
        (All-imp (HasRow channel architecture db.releases)
          (λ l. FromTables db channel tenant architecture (offer_of db channel tenant now rows l))
          rows (λ l h. record { row = h; gate = refl; group = refl })
          (rows_for_lem channel architecture db.releases)))

not_above : (running v : Version) → above (some running) v ≡ false → major_of v ≤ major_of running
not_above running v h = ground arith

open_lem :
    (up gated piloted : Bool)
    → (gated && up && not piloted) ≡ false
    → (up ≡ false) ⊎ ((gated && not piloted) ≡ false)
open_lem up gated piloted h = elim (Bool-cases up) [ inl u ↦ inr (ground arith) | inr u ↦ inl u ]

pub update_target_for_lem :
    (db : Tables) (channel : Option UpdateChannel) (tenant : Option String) (now : ℕ)
    (architecture : String) (running : Version) (group : Option String) (r : ReleaseOffer)
    → update_target_for (offered_releases db channel tenant now architecture) (some running) group
      ≡ some r
    → (any (is_row_for channel architecture r.version.name) db.releases ≡ true)
      × ((major_of r.version ≤ major_of running) ⊎ IsOpen db tenant (major_of r.version) group)
update_target_for_lem db channel tenant now architecture running group r h =
    let offers = offered_releases db channel tenant now architecture in
    let from =
      target-has (FromTables db channel tenant architecture) offers running group r
        (offered_lem db channel tenant now architecture) h in
    let may = (update_target_for-some offers running group r h).1 in
    let access = access_of db tenant (major_of r.version) in
    let grant = grant_of db tenant (major_of r.version) in
    (
      from.row,
      elim (open_lem (above (some running) r.version) r.gated (is_pilot r.pilot_group group)
          may.opened) [
            | inl low ↦ inl (not_above running r.version low)
            | inr open_now ↦ inr (
                permitted_of access grant group (
                  sym (
                    ap (λ g. g && not (is_pilot r.pilot_group group)) from.gate
                    ∙ ap (λ p. major_gated access && not (is_pilot p group)) from.group)
                  ∙ open_now))
          ],
    )
