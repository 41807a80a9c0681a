-- ===== src/Releases/Offers.antt =====
-- cloudflare-control/src/releases.ts: the releases that an organization is offered. A table is a list of
-- its rows, with the columns that an offer is made of.
use Prim.Native.String.{String}
use labkiosk.Shared.{
  ℕ, Bool, true, false, not, ◌&&◌, ◌||◌, Option, none, some, List, [], ◌∷◌, map, ◌==◌, nat_eq,
  string_eq, units_comparable, leb, length, all, any, filter, find, sort, units, trim, is_digit,
  option_beq, if◌then◌else◌,
}
use labkiosk.Web.{is_lower, split_on}
use labkiosk.Lan.Decision.{ReleaseKind, feature, security}
use labkiosk.Releases.{
  Comparison, greater, Version, release_version, compare_items, compare_number, compare_versions,
}
use labkiosk.Releases.Majors.{
  MajorAccess, MajorGrantRow, MajorRow, MajorSupportRow, SupportStatus, confirmed,
  effective_support_status, end_of_life, major_access, major_gated, pilot, security_only, supported,
}

pub data UpdateChannel : Type 0 where
  stable beta : UpdateChannel

pub record ReleaseRow : Type 0 where
  pub version : String
  pub channel : Option UpdateChannel
  pub kind : ReleaseKind
  pub size_bytes : ℕ
  pub found_at : ℕ
  pub classified_at : Option ℕ
  pub revoked_at : Option ℕ
  pub architectures : Option String

pub record Tables : Type 0 where
  pub releases : List ReleaseRow
  pub support : List MajorSupportRow
  pub majors : List MajorRow
  pub grants : List MajorGrantRow

pub record ReleaseOffer : Type 0 where
  pub version : Version
  pub kind : ReleaseKind
  pub size_bytes : ℕ
  pub classified_at : ℕ
  pub support : Option SupportStatus
  pub gated : Bool
  pub pilot_group : Option String
  pub line_only : Bool
  pub approved : Bool

abbrev pub is_security : ReleaseKind → Bool
is_security security = true
is_security feature = false

abbrev pub is_end_of_life : Option SupportStatus → Bool
is_end_of_life (some end_of_life) = true
is_end_of_life _ = false

abbrev pub is_security_only : Option SupportStatus → Bool
is_security_only (some security_only) = true
is_security_only _ = false

abbrev pub same_line : Version → Version → Bool
same_line a b = a.key.core.major == b.key.core.major && a.key.core.minor == b.key.core.minor

abbrev pub major_of : Version → ℕ
major_of v = v.key.core.major

abbrev pub default_architecture : List ℕ
default_architecture = units "amd64"

abbrev pub text_of : Option String → List ℕ
text_of none = []
text_of (some t) = units t

abbrev pub is_architecture : List ℕ → Bool
is_architecture a = all (λ c. is_lower c || is_digit c) a && leb 2 (length a) && leb (length a) 16

-- `[...new Set(texts)]`
abbrev pub unique : List (List ℕ) → List (List ℕ)
unique [] = []
unique (a ∷ rest) = a ∷ filter (λ b. not (a == b)) (unique rest)

abbrev pub is_not_greater : Comparison → Bool
is_not_greater greater = false
is_not_greater _ = true

unfoldable pub release_architectures : Option String → List (List ℕ)
unfolding split_on trim
release_architectures column =
    let names = filter is_architecture (map trim (split_on b',' (text_of column))) in
    default_architecture
    ∷ sort (λ a b. is_not_greater (compare_items compare_number a b))
        (unique (filter (λ a. not (a == default_architecture)) names))

abbrev pub in_channel : Option UpdateChannel → Option UpdateChannel → Bool
in_channel channel none = false
in_channel channel (some stable) = true
in_channel (some beta) (some beta) = true
in_channel _ (some beta) = false

-- `revoked_at IS NULL AND (kind = 'security' OR channel IN (…))`
abbrev pub is_offered : Option UpdateChannel → ReleaseRow → Bool
is_offered channel row =
    option_beq row.revoked_at none && (is_security row.kind || in_channel channel row.channel)

-- A row whose version `isReleaseVersion` takes, with its version.
pub record Listed : Type 0 where
  pub version : Version
  pub row : ReleaseRow

abbrev pub listed_as : Option Version → ReleaseRow → List Listed → List Listed
listed_as none row rest = rest
listed_as (some version) row rest = record { version = version; row = row } ∷ rest

abbrev pub listed : List ReleaseRow → List Listed
listed [] = []
listed (row ∷ rows) = listed_as (release_version row.version) row (listed rows)

abbrev pub is_built_for : String → ReleaseRow → Bool
is_built_for architecture row =
    any (λ a. a == units architecture) (release_architectures row.architectures)

-- A line that the channel offers a feature release of.
abbrev is_feature_of : Option UpdateChannel → Version → Listed → Bool
is_feature_of channel version l =
    not (is_security l.row.kind) && in_channel channel l.row.channel && same_line l.version version

abbrev pub open_of : Option MajorRow → Option Bool
open_of none = none
open_of (some row) = some row.is_opened

abbrev pub grants_of : Option String → List MajorGrantRow → List MajorGrantRow
grants_of none grants = []
grants_of (some tenant) grants = filter (λ g. g.tenant_id == tenant) grants

abbrev pub pilot_of : MajorAccess → Option MajorGrantRow → Option String
pilot_of pilot (some grant) = grant.pilot_group
pilot_of _ _ = none

abbrev approves : MajorAccess → Bool
approves confirmed = true
approves pilot = true
approves _ = false

abbrev unless_supported : SupportStatus → Option SupportStatus
unless_supported supported = none
unless_supported security_only = some security_only
unless_supported end_of_life = some end_of_life

abbrev or_zero : Option ℕ → ℕ
or_zero none = 0
or_zero (some n) = n

-- Where an organization stands with a major.
abbrev pub grant_of : Tables → Option String → ℕ → Option MajorGrantRow
grant_of db tenant major = find (λ g. g.major == major) (grants_of tenant db.grants)

abbrev pub access_of : Tables → Option String → ℕ → MajorAccess
access_of db tenant major =
    major_access (open_of (find (λ m. m.major == major) db.majors)) (grant_of db tenant major)

abbrev pub offer_of :
    Tables → Option UpdateChannel → Option String → ℕ → List Listed → Listed → ReleaseOffer
offer_of db channel tenant now rows l =
    let major = major_of l.version in
    let access = access_of db tenant major in
    let status = effective_support_status (find (λ s. s.major == major) db.support) now in
    record {
      version = l.version;
      kind = l.row.kind;
      size_bytes = l.row.size_bytes;
      classified_at =
          if is_security l.row.kind then l.row.found_at else or_zero l.row.classified_at;
      support = unless_supported status;
      gated = major_gated access;
      pilot_group = pilot_of access (grant_of db tenant major);
      line_only = is_security l.row.kind && not (any (is_feature_of channel l.version) rows);
      approved = approves access;
    }

-- `compareVersions(b.version, a.version)` of two offers in order.
abbrev pub not_older : ReleaseOffer → ReleaseOffer → Bool
not_older a b = is_not_greater (compare_versions b.version a.version)

-- The rows that an offer is made of, and their offers in the order of the table.
abbrev pub rows_for : Tables → Option UpdateChannel → String → List Listed
rows_for db channel architecture =
    filter (λ l. is_built_for architecture l.row) (listed (filter (is_offered channel) db.releases))

unfoldable pub offers_in :
    Tables → Option UpdateChannel → Option String → ℕ → String → List ReleaseOffer
offers_in db channel tenant now architecture =
    let rows = rows_for db channel architecture in map (offer_of db channel tenant now rows) rows

unfoldable pub offered_releases :
    Tables → Option UpdateChannel → Option String → ℕ → String → List ReleaseOffer
offered_releases db channel tenant now architecture =
    sort not_older (offers_in db channel tenant now architecture)
