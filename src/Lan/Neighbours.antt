-- ===== src/Lan/Neighbours.antt =====
-- cloudflare-control/src/lan_sharing.ts: which workstations of a site hold a release, and which of them
-- fetch it.
use Prim.Native.String.{String}
use labkiosk.Shared.{
  ℕ, ◌+◌, ◌*◌, ◌≤◌, ◌<◌, ◌≡◌, ◌≢◌, ◌↔◌, ◌⊎◌, inl, inr, refl, sym, ◌∙◌, Bool, true, false, not, ◌&&◌,
  Option, none, some, List, ◌==◌, string_eq, units_comparable, length, filter, any, option_beq_iff,
  Bool-cases, All, AtLeast, AtLeast-iff, filter-filter, any-filter, none_iff, arith,
}
use labkiosk.Lan.{site_key}
use labkiosk.Lan.Decision.{
  UpdatePhase, live, idle, checking, downloading, ready, staged, installing, up_to_date, error,
  UpdateReport, SiteMember, is_verified, since_lately, update_holds, holds, told_lately, just_told,
  seeds_in, phase_of, version_of, seeding, at_site, neighbours,
}

-- A workstation shares what it verified less than 48 hours before; one that does not say when, shares it.
abbrev pub IsShared : Option ℕ → ℕ → Type 0
IsShared none now = Unit
IsShared (some since) now = now < (since + 48 * 60 * 60) * 1000

abbrev pub HoldsRelease : Option UpdateReport → String → ℕ → Type 0
HoldsRelease none version now = ⊥
HoldsRelease (some update) version now =
    ((update.phase ≡ ready) ⊎ (update.phase ≡ staged))
    × (update.version ≡ some version)
    × IsShared update.since now

-- Another workstation of the same site, where `member` has one.
abbrev pub IsNeighbour : SiteMember → SiteMember → Type 0
IsNeighbour member o =
    (o.client_id ≢ member.client_id)
    × ((site : List ℕ) × (site_key member.ip member.lan ≡ some site)
        × (site_key o.ip o.lan ≡ some site))

abbrev pub IsHolder : SiteMember → String → ℕ → SiteMember → Type 0
IsHolder member version now o = IsNeighbour member o × HoldsRelease o.update version now

-- Told to fetch the release less than five minutes before.
abbrev pub IsBefore : ℕ → Option ℕ → Type 0
IsBefore now none = ⊥
IsBefore now (some end) = now < end + 5 * 60 * 1000

abbrev pub IsTold : SiteMember → String → ℕ → Type 0
IsTold o version now = (o.nudged_version ≡ some version) × IsBefore now o.nudged_at

-- It fetches the release; or it was told to, does not fetch another, has not failed and does not hold it.
abbrev pub Fetches : Option UpdateReport → String → ℕ → Type 0 → Type 0
Fetches none version now told = told
Fetches (some update) version now told =
    ((update.phase ≡ downloading) × (update.version ≡ some version))
    ⊎ ((update.phase ≢ downloading)
        × (update.phase ≢ error)
        × (¬ HoldsRelease (some update) version now)
        × told)

abbrev pub IsSeed : SiteMember → String → ℕ → SiteMember → Type 0
IsSeed member version now o =
    IsNeighbour member o × Fetches o.update version now (IsTold o version now)

since_lately_iff :
    (since : Option ℕ) (now : ℕ) → (since_lately since now ≡ true) ↔ IsShared since now
since_lately_iff none now = (λ h. tt, λ h. refl)
since_lately_iff (some since) now = (λ h. ground arith, λ h. ground arith)

is_verified_iff :
    (phase : UpdatePhase) → (is_verified phase ≡ true) ↔ ((phase ≡ ready) ⊎ (phase ≡ staged))
is_verified_iff ready = (λ h. inl refl, λ h. refl)
is_verified_iff staged = (λ h. inr refl, λ h. refl)
is_verified_iff live = (λ h. cc, λ h. elim h [ inl k ↦ cc | inr k ↦ cc ])
is_verified_iff idle = (λ h. cc, λ h. elim h [ inl k ↦ cc | inr k ↦ cc ])
is_verified_iff checking = (λ h. cc, λ h. elim h [ inl k ↦ cc | inr k ↦ cc ])
is_verified_iff downloading = (λ h. cc, λ h. elim h [ inl k ↦ cc | inr k ↦ cc ])
is_verified_iff installing = (λ h. cc, λ h. elim h [ inl k ↦ cc | inr k ↦ cc ])
is_verified_iff up_to_date = (λ h. cc, λ h. elim h [ inl k ↦ cc | inr k ↦ cc ])
is_verified_iff error = (λ h. cc, λ h. elim h [ inl k ↦ cc | inr k ↦ cc ])

update_holds_iff :
    (update : Option UpdateReport) (version : String) (now : ℕ)
    → (update_holds update version now ≡ true) ↔ HoldsRelease update version now
update_holds_iff none version now = (λ h. cc, λ h. absurd h)
update_holds_iff (some update) version now =
    let verified = is_verified_iff update.phase in
    let same = option_beq_iff update.version (some version) in
    let lately = since_lately_iff update.since now in
    (
      λ h. (verified.0 (ground arith), same.0 (ground arith), lately.0 (ground arith)),
      λ (v, s, l). let a = verified.1 v in let b = same.1 s in let c = lately.1 l in ground arith,
    )

told_lately_iff : (at : Option ℕ) (now : ℕ) → (told_lately at now ≡ true) ↔ IsBefore now at
told_lately_iff none now = (λ h. cc, λ h. absurd h)
told_lately_iff (some at) now = (λ h. ground arith, λ h. ground arith)

just_told_iff :
    (o : SiteMember) (version : String) (now : ℕ)
    → (just_told o version now ≡ true) ↔ IsTold o version now
just_told_iff o version now =
    let same = option_beq_iff o.nudged_version (some version) in
    let lately = told_lately_iff o.nudged_at now in
    (
      λ h. (same.0 (ground arith), lately.0 (ground arith)),
      λ (s, l). let a = same.1 s in let b = lately.1 l in ground arith,
    )

-- A phase that is neither `downloading` nor `error`.
other_phase_iff :
    {P H S : Type 0} (phase : UpdatePhase) (holding told : Bool)
    → (phase ≢ downloading)
    → (phase ≢ error)
    → ((holding ≡ true) ↔ H)
    → ((told ≡ true) ↔ P)
    → ((not holding && told) ≡ true)
      ↔ (((phase ≡ downloading) × S) ⊎ ((phase ≢ downloading) × (phase ≢ error) × (¬ H) × P))
other_phase_iff phase holding told d e h p = (
  λ k. inr (d, e, λ held. let holds_it = h.1 held in ground arith, p.0 (ground arith)),
  λ k. elim k [
    | inl (wrong, _) ↦ absurd (d wrong)
    | inr (_, _, free, t) ↦ elim (Bool-cases holding) [
      | inl held ↦ absurd (free (h.0 held))
      | inr absent ↦ let was_told = p.1 t in ground arith
    ]
  ],
)

seeds_in_iff :
    {P H : Type 0} (phase : UpdatePhase) (of : Option String) (holding told : Bool)
    (version : String)
    → ((holding ≡ true) ↔ H)
    → ((told ≡ true) ↔ P)
    → (seeds_in (some phase) of holding told version ≡ true) ↔ (
        ((phase ≡ downloading) × (of ≡ some version))
        ⊎ ((phase ≢ downloading) × (phase ≢ error) × (¬ H) × P))
seeds_in_iff downloading of holding told version h p =
    let same = option_beq_iff of (some version) in
    (
      λ k. inl (refl, same.0 k),
      λ k. elim k [ inl (_, s) ↦ same.1 s | inr (wrong, _, _, _) ↦ absurd (wrong refl) ],
    )
seeds_in_iff error of holding told version h p =
    (λ k. cc, λ k. elim k [ inl (wrong, _) ↦ cc | inr (_, wrong, _, _) ↦ absurd (wrong refl) ])
seeds_in_iff live of holding told version h p =
    other_phase_iff live holding told (λ e. cc) (λ e. cc) h p
seeds_in_iff idle of holding told version h p =
    other_phase_iff idle holding told (λ e. cc) (λ e. cc) h p
seeds_in_iff checking of holding told version h p =
    other_phase_iff checking holding told (λ e. cc) (λ e. cc) h p
seeds_in_iff ready of holding told version h p =
    other_phase_iff ready holding told (λ e. cc) (λ e. cc) h p
seeds_in_iff staged of holding told version h p =
    other_phase_iff staged holding told (λ e. cc) (λ e. cc) h p
seeds_in_iff installing of holding told version h p =
    other_phase_iff installing holding told (λ e. cc) (λ e. cc) h p
seeds_in_iff up_to_date of holding told version h p =
    other_phase_iff up_to_date holding told (λ e. cc) (λ e. cc) h p

seeds_iff :
    {P : Type 0} (update : Option UpdateReport) (told : Bool) (version : String) (now : ℕ)
    → ((told ≡ true) ↔ P)
    → (seeds_in (phase_of update) (version_of update) (update_holds update version now) told version
        ≡ true)
      ↔ Fetches update version now P
seeds_iff none told version now p = p
seeds_iff (some update) told version now p =
    seeds_in_iff update.phase update.version (update_holds (some update) version now) told version
      (update_holds_iff (some update) version now) p

some_inj {ℓ} : {A : Type ℓ} {a b : A} → some a ≡ some b → a ≡ b
some_inj e = cc

module _ (member : SiteMember) (site : List ℕ)
    (known : site_key member.ip member.lan ≡ some site) where
  at_site_iff : (o : SiteMember) → (at_site member site o ≡ true) ↔ IsNeighbour member o
  at_site_iff o =
      let id = string_eq.same_iff o.client_id member.client_id in
      let key = option_beq_iff (site_key o.ip o.lan) (some site) in
      (
        λ h. (λ same. let is_same = id.1 same in ground arith, (site, known, key.0 (ground arith))),
        λ (other, (place, here, there)).
            let same_key = key.1 (there ∙ sym here ∙ known) in
            elim (Bool-cases (o.client_id == member.client_id)) [
              | inl e ↦ absurd (other (id.0 e))
              | inr e ↦ ground arith
            ],
      )

  both_iff :
      {Q : SiteMember → Type 0} (q : SiteMember → Bool)
      → ((o : SiteMember) → (q o ≡ true) ↔ Q o)
      → (o : SiteMember) → ((at_site member site o && q o) ≡ true) ↔ (IsNeighbour member o × Q o)
  both_iff q iff o =
      let near = at_site_iff o in
      let also = iff o in
      (
        λ h. (near.0 (ground arith), also.0 (ground arith)),
        λ (n, k). let a = near.1 n in let b = also.1 k in ground arith,
      )

  module _ (version : String) (now : ℕ) where
    pub IsHolder-iff :
        (o : SiteMember)
        → ((at_site member site o && holds o version now) ≡ true) ↔ IsHolder member version now o
    unfolding holds
    IsHolder-iff = both_iff (λ o. holds o version now) (λ o. update_holds_iff o.update version now)

    IsSeed-iff :
        (o : SiteMember)
        → ((at_site member site o && seeding o version now) ≡ true) ↔ IsSeed member version now o
    unfolding seeding holds
    IsSeed-iff =
        both_iff (λ o. seeding o version now)
          (λ o.
            seeds_iff o.update (just_told o version now) version now (just_told_iff o version now))

    pub holders-AtLeast :
        (n : ℕ) (others : List SiteMember)
        → (n ≤ length (filter (λ o. holds o version now) (neighbours member site others)))
          ↔ AtLeast (IsHolder member version now) n others
    holders-AtLeast n others =
        rw (filter-filter (λ o. holds o version now) (at_site member site) others) (
          AtLeast-iff (λ o. at_site member site o && holds o version now)
            (IsHolder member version now) IsHolder-iff n others)

    pub seeds-AtLeast :
        (n : ℕ) (others : List SiteMember)
        → (n ≤ length (filter (λ o. seeding o version now) (neighbours member site others)))
          ↔ AtLeast (IsSeed member version now) n others
    seeds-AtLeast n others =
        rw (filter-filter (λ o. seeding o version now) (at_site member site) others) (
          AtLeast-iff (λ o. at_site member site o && seeding o version now)
            (IsSeed member version now) IsSeed-iff n others)

    pub no-IsHolder_iff :
        (others : List SiteMember)
        → (any (λ o. holds o version now) (neighbours member site others) ≡ false)
          ↔ All (λ o. ¬ IsHolder member version now o) others
    no-IsHolder_iff others =
        rw (any-filter (at_site member site) (λ o. holds o version now) others) (
          none_iff (λ o. at_site member site o && holds o version now) (IsHolder member version now)
            IsHolder-iff others)
