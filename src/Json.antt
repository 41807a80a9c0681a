-- ===== src/Json.antt =====
-- The values that a request body holds (`JSON.parse`), as the validators of the source test them.
use Prim.Native.String.{String}
use labkiosk.Shared.{ℕ, Bool, true, false, ◌==◌, string_eq, if◌then◌else◌}

-- A number is a whole one, signed, or one that `Number.isInteger` refuses. `undefined` is what a
-- property that is not there reads as.
mutual
  pub data Json : Type 0 where
    undefined null fraction : Json
    boolean : Bool → Json
    whole : ℕ → Json
    minus : ℕ → Json  -- -(n + 1)
    text : String → Json
    array : Items → Json
    object : Fields → Json

  pub data Items : Type 0 where
    nil : Items
    cons : Json → Items → Items

  pub data Fields : Type 0 where
    end : Fields
    field : String → Json → Fields → Fields

-- `body.key`; the last property of a name is the one that counts.
unfoldable pub property : Fields → String → Json
property end k = undefined
property (field j v fs) k =
    let later = property fs k in
    elim later [ undefined ↦ if j == k then v else undefined | found ↦ found ]

-- `v === undefined || v === null || v === ""`
abbrev pub is_blank : Json → Bool
is_blank undefined = true
is_blank null = true
is_blank (text s) = s == ""
is_blank _ = false
