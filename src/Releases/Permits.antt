-- ===== src/Releases/Permits.antt =====
-- cloudflare-control/src/releases.ts: what the rows of the tables say of a release that a workstation is
-- offered and fetches.
use Prim.Native.String.{String}
use mathlib.Core.Path.{subst}
use labkiosk.Shared.{
  ℕ, ◌≤◌, ◌≡◌, ◌≢◌, ◌⊎◌, inl, inr, refl, sym, ap, ◌∙◌, Bool, true, false, not, ◌&&◌, ◌||◌, Option,
  none, some, ◌==◌, nat_eq, string_eq, units_comparable, find, All, Any, find-Any, find_none-All,
  find-filter, any-Any, Bool-cases, Option-cases, if◌then◌else◌, arith,
}
use labkiosk.Releases.{Version}
use labkiosk.Releases.Offers.{
  ReleaseOffer, UpdateChannel, Tables, pilot_of, grant_of, major_of, open_of, offered_releases,
}
use labkiosk.Releases.Majors.{
  MajorAccess, MajorGrantRow, MajorRow, free, closed, requested, available, pilot, confirmed,
  is_set, has_name, tried, major_access,
}
use labkiosk.Releases.Eligible.{is_pilot, update_target_for}
use labkiosk.Releases.Rows.{IsRowFor, is_row_for-IsRowFor}
use labkiosk.Releases.Gates.{is_row_for, IsOpen, update_target_for_lem}

-- A time that is neither null nor 0.
abbrev pub HasTime : Option ℕ → Type 0
HasTime none = ⊥
HasTime (some at) = at ≢ 0

-- The organization confirmed the major, or tries it on the workstation's group, which has a name.
abbrev pub IsTaken : MajorGrantRow → Option String → Type 0
IsTaken g group =
    HasTime g.confirmed_at
    ⊎ ((name : String) × (g.pilot_group ≡ some name) × (group ≡ some name) × (name ≢ ""))

abbrev pub IsGrantOf : String → ℕ → MajorGrantRow → Type 0
IsGrantOf tenant major g = (g.tenant_id ≡ tenant) × (g.major ≡ major)

-- The major has no row, or the organization has a grant of it by which it is taken, while the major is
-- open to all organizations or granted to this one.
abbrev pub IsPermitted : Tables → Option String → ℕ → Option String → Type 0
IsPermitted db tenant major group =
    All (λ m. m.major ≢ major) db.majors
    ⊎ ((t : String) × (tenant ≡ some t)
        × Any
            (λ g.
              IsGrantOf t major g
              × IsTaken g group
              × (Any (λ m. (m.major ≡ major) × (m.is_opened ≡ true)) db.majors
                  ⊎ HasTime g.granted_at))
            db.grants)

is_set-HasTime : (o : Option ℕ) → is_set o ≡ true → HasTime o
is_set-HasTime none h = cc
is_set-HasTime (some at) h = λ e. let zero_at = (nat_eq.same_iff at 0).1 e in ground arith

-- An access by which a major may be taken, by a workstation that is or is not of the grant's group.
abbrev MayTry : MajorAccess → Bool → Type 0
MayTry access of_group =
    (access ≡ free) ⊎ (access ≡ confirmed) ⊎ ((access ≡ pilot) × (of_group ≡ true))

tried_lem :
    (confirms named of_group : Bool)
    → MayTry (if confirms then confirmed else if named then pilot else available) of_group
    → (confirms || of_group) ≡ true
tried_lem true named of_group h = refl
tried_lem false true of_group h = elim h [
  | inl k ↦ cc
  | inr k ↦ elim k [ inl m ↦ cc | inr (_, m) ↦ m ]
]
tried_lem false false of_group h = elim h [
  | inl k ↦ cc
  | inr k ↦ elim k [ inl m ↦ cc | inr m ↦ let wrong = m.0 in cc ]
]

opened_lem :
    (opened asked of_group : Bool) (access : MajorAccess)
    → MayTry (if not opened then if asked then requested else closed else access) of_group
    → (opened ≡ true) × MayTry access of_group
opened_lem true asked of_group access h = (refl, h)
opened_lem false true of_group access h = elim h [
  | inl k ↦ cc
  | inr k ↦ elim k [ inl m ↦ cc | inr m ↦ let wrong = m.0 in cc ]
]
opened_lem false false of_group access h = elim h [
  | inl k ↦ cc
  | inr k ↦ elim k [ inl m ↦ cc | inr m ↦ let wrong = m.0 in cc ]
]

not_or : (b c : Bool) → (not b && not c) ≡ not (b || c)
not_or true c = refl
not_or false c = refl

-- What the row of the major and the grant say, of a major that may be taken.
taken_lem :
    (is_opened : Bool) (grant : Option MajorGrantRow) (group : Option String)
    → MayTry (major_access (some is_opened) grant) (is_pilot (pilot_of pilot grant) group)
    → (g : MajorGrantRow) × (grant ≡ some g)
      × ((is_set g.confirmed_at || is_pilot g.pilot_group group) ≡ true)
      × ((is_opened || is_set g.granted_at) ≡ true)
taken_lem true none group h = elim h [
  | inl k ↦ cc
  | inr k ↦ elim k [ inl m ↦ cc | inr m ↦ let wrong = m.0 in cc ]
]
taken_lem false none group h = elim h [
  | inl k ↦ cc
  | inr k ↦ elim k [ inl m ↦ cc | inr m ↦ let wrong = m.0 in cc ]
]
taken_lem is_opened (some g) group h =
    let of_group = is_pilot g.pilot_group group in
    let (opened, may) =
      opened_lem (is_opened || is_set g.granted_at) (is_set g.requested_at) of_group
        (tried (some g))
        (subst
          (λ b.
            MayTry
              (if b then if is_set g.requested_at then requested else closed else tried (some g))
              of_group)
          (not_or is_opened (is_set g.granted_at)) h) in
    (g, refl, tried_lem (is_set g.confirmed_at) (has_name g.pilot_group) of_group may, opened)

is_pilot-IsTaken :
    (o group : Option String)
    → is_pilot o group ≡ true
    → (name : String) × (o ≡ some name) × (group ≡ some name) × (name ≢ "")
is_pilot-IsTaken o none h = cc
is_pilot-IsTaken none (some group) h = cc
is_pilot-IsTaken (some name) (some group) h =
    let same : name ≡ group = (string_eq.same_iff name group).0 (ground arith) in
    (
      name,
      refl,
      ap some (sym same),
      λ blank. let is_blank = (string_eq.same_iff name "").1 blank in ground arith,
    )

IsTaken-of :
    (g : MajorGrantRow) (group : Option String)
    → (is_set g.confirmed_at || is_pilot g.pilot_group group) ≡ true
    → IsTaken g group
IsTaken-of g group h = elim (Bool-cases (is_set g.confirmed_at)) [
  | inl e ↦ inl (is_set-HasTime g.confirmed_at e)
  | inr e ↦ inr (is_pilot-IsTaken g.pilot_group group (ground arith))
]

module _ (db : Tables) (major : ℕ) (group : Option String) where
  grant_lem :
      (tenant : Option String) (m : MajorRow) (g : MajorGrantRow)
      → find (λ m. m.major == major) db.majors ≡ some m
      → grant_of db tenant major ≡ some g
      → (is_set g.confirmed_at || is_pilot g.pilot_group group) ≡ true
      → (m.is_opened || is_set g.granted_at) ≡ true
      → IsPermitted db tenant major group
  grant_lem none m g found e taken opened = cc
  grant_lem (some t) m g found e taken opened = inr (
    t,
    refl,
    find-Any
        (λ g.
          IsGrantOf t major g
          × IsTaken g group
          × (Any (λ m. (m.major ≡ major) × (m.is_opened ≡ true)) db.majors ⊎ HasTime g.granted_at))
        (λ g. g.tenant_id == t && g.major == major) db.grants g
        (sym (find-filter (λ g. g.major == major) (λ g. g.tenant_id == t) db.grants) ∙ e)
        (λ k. (
          (
            (string_eq.same_iff g.tenant_id t).0 (ground arith),
            (nat_eq.same_iff g.major major).0 (ground arith),
          ),
          IsTaken-of g group taken,
          elim (Bool-cases m.is_opened) [
            | inl o ↦ inl (
                find-Any (λ m. (m.major ≡ major) × (m.is_opened ≡ true)) (λ m. m.major == major)
                  db.majors m found (λ k. ((nat_eq.same_iff m.major major).0 k, o)))
            | inr o ↦ inr (is_set-HasTime g.granted_at (ground arith))
          ],
        )),
  )

  IsOpen-IsPermitted :
      (tenant : Option String) → IsOpen db tenant major group → IsPermitted db tenant major group
  IsOpen-IsPermitted tenant h = elim (Option-cases (find (λ m. m.major == major) db.majors)) [
    | inl absent ↦ inl (
        find_none-All (λ m. m.major ≢ major) (λ m. m.major == major) db.majors absent
          (λ m other same. let is_same = (nat_eq.same_iff m.major major).1 same in cc))
    | inr (m, found) ↦
        let (g, grant, taken, opened) = taken_lem m.is_opened (grant_of db tenant major) group (
          subst
            (λ row.
              MayTry (major_access (open_of row) (grant_of db tenant major))
                (is_pilot (pilot_of pilot (grant_of db tenant major)) group))
            found h) in
        grant_lem tenant m g found grant taken opened
  ]

-- A release that a workstation fetches of those offered to its organization has a row that is not
-- revoked, in the channel or of a security release, with a build for its architecture; and it is of no
-- higher major than what runs, or of one that has no row, or that the organization confirmed or tries
-- on the workstation's group, where it is open to all or granted to the organization.
pub update_target_for-IsPermitted :
    (db : Tables) (channel : Option UpdateChannel) (tenant : Option String) (now : ℕ)
    (architecture : String) (running : Version) (group : Option String) (r : ReleaseOffer)
    → update_target_for (offered_releases db channel tenant now architecture) (some running) group
      ≡ some r
    → Any (IsRowFor channel architecture r.version.name) db.releases
      × ((major_of r.version ≤ major_of running) ⊎ IsPermitted db tenant (major_of r.version) group)
update_target_for-IsPermitted db channel tenant now architecture running group r h =
    let (row, may) = update_target_for_lem db channel tenant now architecture running group r h in
    (
      any-Any (IsRowFor channel architecture r.version.name)
          (is_row_for channel architecture r.version.name) db.releases
          (is_row_for-IsRowFor channel architecture r.version.name) row,
      elim may [
        | inl low ↦ inl low
        | inr open_now ↦ inr (IsOpen-IsPermitted db (major_of r.version) group tenant open_now)
      ],
    )
