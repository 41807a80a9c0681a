-- ===== src/Releases/Rows.antt =====
-- cloudflare-control/src/releases.ts: what the row of a release that is offered says.
use Prim.Native.String.{String}
use mathlib.Core.Path.{subst}
use labkiosk.Shared.{
  ℕ, ◌≡◌, ◌⊎◌, inl, inr, refl, true, not, Option, none, some, List, [], ◌∷◌, map, ◌==◌, nat_eq,
  string_eq, units_comparable, units_eq_iff, option_beq_iff, any, filter, All, All-imp, All-filter,
  sort, All-sort, Any, units, trim, trim_start, Bool-cases, arith,
}
use labkiosk.Web.{split_on}
use labkiosk.Lan.Decision.{ReleaseKind, feature, security}
use labkiosk.Releases.{compare_items, compare_number}
use labkiosk.Releases.Offers.{
  ReleaseRow, UpdateChannel, stable, beta, is_offered, is_security, in_channel, is_built_for,
  is_architecture, text_of, unique, is_not_greater, default_architecture, release_architectures,
}
use labkiosk.Releases.Gates.{is_row_for}

abbrev pub IsInChannel : Option UpdateChannel → ReleaseRow → Type 0
IsInChannel channel row =
    (row.channel ≡ some stable) ⊎ ((row.channel ≡ some beta) × (channel ≡ some beta))

-- An architecture that stands in the column, between its commas.
abbrev pub IsListedIn : Option String → List ℕ → Type 0
IsListedIn none architecture = ⊥
IsListedIn (some column) architecture =
    Any (λ part. trim part ≡ architecture) (split_on b',' (units column))

-- A row of the version that is not revoked, of the channel or of a security release, with a build for
-- the architecture; every release has one for amd64.
abbrev pub IsRowFor : Option UpdateChannel → String → String → ReleaseRow → Type 0
IsRowFor channel architecture version row =
    (row.version ≡ version)
    × (row.revoked_at ≡ none)
    × ((row.kind ≡ security) ⊎ IsInChannel channel row)
    × ((units "amd64" ≡ units architecture) ⊎ IsListedIn row.architectures (units architecture))

in_channel-IsInChannel :
    (channel : Option UpdateChannel) (row : ReleaseRow) (of : Option UpdateChannel)
    → row.channel ≡ of
    → in_channel channel of ≡ true
    → IsInChannel channel row
in_channel-IsInChannel channel row none e h = cc
in_channel-IsInChannel channel row (some stable) e h = inl e
in_channel-IsInChannel none row (some beta) e h = cc
in_channel-IsInChannel (some stable) row (some beta) e h = cc
in_channel-IsInChannel (some beta) row (some beta) e h = inr (e, refl)

security_kind : (kind : ReleaseKind) → is_security kind ≡ true → kind ≡ security
security_kind security h = refl
security_kind feature h = cc

is_offered_lem :
    (channel : Option UpdateChannel) (row : ReleaseRow)
    → is_offered channel row ≡ true
    → (row.revoked_at ≡ none) × ((row.kind ≡ security) ⊎ IsInChannel channel row)
is_offered_lem channel row h = (
  (option_beq_iff row.revoked_at none).0 (ground arith),
  elim (Bool-cases (is_security row.kind)) [
    | inl e ↦ inl (security_kind row.kind e)
    | inr e ↦ inr (in_channel-IsInChannel channel row row.channel refl (ground arith))
  ],
)

module _ (P : List ℕ → Type 0) where
  All-unique : (texts : List (List ℕ)) → All P texts → All P (unique texts)
  All-unique [] h = tt
  All-unique (a ∷ rest) (h, hs) =
      (h, All-filter P (λ b. not (a == b)) (unique rest) (All-unique rest hs))

  All-any :
      (texts : List (List ℕ)) (a : List ℕ) → All P texts → any (λ b. b == a) texts ≡ true → P a
  All-any [] a h k = cc
  All-any (t ∷ ts) a (h, hs) k = elim (Bool-cases (t == a)) [
    | inl e ↦ subst P ((units_eq_iff t a).0 e) h
    | inr e ↦ All-any ts a hs (ground arith)
  ]

All-trim : (parts : List (List ℕ)) → All (λ a. Any (λ part. trim part ≡ a) parts) (map trim parts)
All-trim [] = tt
All-trim (p ∷ ps) = (
  inl refl,
  All-imp (λ a. Any (λ part. trim part ≡ a) ps) (λ a. Any (λ part. trim part ≡ a) (p ∷ ps))
      (map trim ps) (λ a h. inr h) (All-trim ps),
)

named_architectures :
    (column : Option String)
    → All (IsListedIn column) (filter is_architecture (map trim (split_on b',' (text_of column))))
unfolding trim split_on trim_start
named_architectures none = tt
named_architectures (some column) =
    All-filter (IsListedIn (some column)) is_architecture (map trim (split_on b',' (units column)))
      (All-trim (split_on b',' (units column)))

is_built_for_lem :
    (architecture : String) (row : ReleaseRow)
    → is_built_for architecture row ≡ true
    → (units "amd64" ≡ units architecture) ⊎ IsListedIn row.architectures (units architecture)
unfolding release_architectures
is_built_for_lem architecture row h =
    let listed_in = IsListedIn row.architectures in
    let names = filter is_architecture (map trim (split_on b',' (text_of row.architectures))) in
    let by_name = λ (a b : List ℕ). is_not_greater (compare_items compare_number a b) in
    let others = unique (filter (λ a. not (a == default_architecture)) names) in
    elim (Bool-cases (default_architecture == units architecture)) [
      | inl e ↦ inl ((units_eq_iff default_architecture (units architecture)).0 e)
      | inr e ↦ inr (
          All-any listed_in (sort by_name others) (units architecture)
            (All-sort by_name listed_in others (
              All-unique listed_in (filter (λ a. not (a == default_architecture)) names) (
                All-filter listed_in (λ a. not (a == default_architecture)) names
                  (named_architectures row.architectures))))
            (ground arith))
    ]

pub is_row_for-IsRowFor :
    (channel : Option UpdateChannel) (architecture version : String) (row : ReleaseRow)
    → is_row_for channel architecture version row ≡ true
    → IsRowFor channel architecture version row
is_row_for-IsRowFor channel architecture version row h =
    let (live_row, offered) = is_offered_lem channel row (ground arith) in
    (
      (string_eq.same_iff row.version version).0 (ground arith),
      live_row,
      offered,
      is_built_for_lem architecture row (ground arith),
    )
