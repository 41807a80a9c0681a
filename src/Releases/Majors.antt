-- ===== src/Releases/Majors.antt =====
-- cloudflare-control/src/releases.ts: the support of a major release, and where an organization stands
-- with it.
use Prim.Native.String.{String}
use labkiosk.Shared.{
  ℕ, Bool, true, false, not, ◌&&◌, Option, none, some, ◌==◌, nat_eq, string_eq, units_comparable,
  leb, if◌then◌else◌,
}

pub data SupportStatus : Type 0 where
  supported security_only end_of_life : SupportStatus

pub record MajorSupportRow : Type 0 where
  pub major : ℕ
  pub status : String
  pub end_of_life_at : Option ℕ

pub record MajorGrantRow : Type 0 where
  pub tenant_id : String
  pub major : ℕ
  pub granted_at : Option ℕ
  pub confirmed_at : Option ℕ
  pub requested_at : Option ℕ
  pub pilot_group : Option String

pub record MajorRow : Type 0 where
  pub major : ℕ
  pub is_opened : Bool

-- A time that is neither null nor 0, and a text that is neither null nor empty.
abbrev pub is_set : Option ℕ → Bool
is_set none = false
is_set (some at) = not (at == 0)

abbrev pub has_name : Option String → Bool
has_name none = false
has_name (some name) = not (name == "")

abbrev pub status_of : String → SupportStatus
status_of status =
    if status == "security_only"
    then security_only
    else if status == "end_of_life"
    then end_of_life
    else supported

abbrev pub end_passed : Option ℕ → ℕ → Bool
end_passed none now = false
end_passed (some at) now = not (at == 0) && leb at now

abbrev pub effective_support_status : Option MajorSupportRow → ℕ → SupportStatus
effective_support_status none now = supported
effective_support_status (some row) now =
    if end_passed row.end_of_life_at now then end_of_life else status_of row.status

pub data MajorAccess : Type 0 where
  free closed requested available pilot confirmed : MajorAccess

abbrev pub granted : Option MajorGrantRow → Bool
granted none = false
granted (some grant) = is_set grant.granted_at

abbrev pub was_asked : Option MajorGrantRow → Bool
was_asked none = false
was_asked (some grant) = is_set grant.requested_at

abbrev pub tried : Option MajorGrantRow → MajorAccess
tried none = available
tried (some grant) =
    if is_set grant.confirmed_at
    then confirmed
    else if has_name grant.pilot_group
    then pilot
    else available

abbrev pub major_access : Option Bool → Option MajorGrantRow → MajorAccess
major_access none grant = free
major_access (some is_opened) grant =
    if not is_opened && not (granted grant)
    then if was_asked grant then requested else closed
    else tried grant

abbrev pub major_gated : MajorAccess → Bool
major_gated free = false
major_gated confirmed = false
major_gated _ = true
