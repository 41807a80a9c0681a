-- ===== src/Shared/Text.antt =====
-- What the source uses of JavaScript's strings.
use Prim.Native.Nat.{ℕ, ◌+◌, ◌-◌, ◌/◌, ◌%◌}
use Prim.Native.Char.{code}
use Prim.Native.String.{String}
use mathlib.Core.Bool.{Bool, true, false, ◌&&◌, ◌||◌}
use mathlib.Core.List.{List, [], ◌∷◌, reverse}
use mathlib.Core.Path.{◌≡◌, refl}
use mathlib.Core.Logic.{◌↔◌, ◌⊎◌, inl, inr}
use native.Mathlib.Omega.{arith}
use labkiosk.Shared.Lists.{length, take, drop, any}
use labkiosk.Shared.Tests.{leb, Comparable, ◌==◌, nat_eq, if◌then◌else◌}

-- A string of JavaScript is its UTF-16 code units: two for a code point of 0x10000 and above.
abbrev pub unit_pair : ℕ → List ℕ → List ℕ
unit_pair c rest =
    if leb 0x10000 c
    then (0xd800 + (c - 0x10000) / 0x400) ∷ (0xdc00 + (c - 0x10000) % 0x400) ∷ rest
    else c ∷ rest

unfoldable pub units : String → List ℕ
units String.[] = []
units (String.◌∷◌ ch rest) = unit_pair (code ch) (units rest)

abbrev pub is_digit : ℕ → Bool
is_digit c = leb b'0' c && leb c b'9'

-- `\s` and what `trim` removes: the white space and line ends of ECMAScript.
unfoldable pub is_space : ℕ → Bool
is_space c =
    (leb 9 c && leb c 13)
    || c == 0x20
    || c == 0xa0
    || c == 0x1680
    || (leb 0x2000 c && leb c 0x200a)
    || c == 0x2028
    || c == 0x2029
    || c == 0x202f
    || c == 0x205f
    || c == 0x3000
    || c == 0xfeff

unfoldable pub trim_start : List ℕ → List ℕ
trim_start [] = []
trim_start (c ∷ cs) = if is_space c then trim_start cs else c ∷ cs

unfoldable pub trim : List ℕ → List ℕ
unfolding trim_start is_space
trim cs = reverse (trim_start (reverse (trim_start cs)))

-- Texts given by their units.
unfoldable pub units_eq : List ℕ → List ℕ → Bool
units_eq [] [] = true
units_eq [] (b ∷ bs) = false
units_eq (a ∷ as') [] = false
units_eq (a ∷ as') (b ∷ bs) = a == b && units_eq as' bs

pub units_eq_iff : (a b : List ℕ) → (units_eq a b ≡ true) ↔ (a ≡ b)
unfolding units_eq
units_eq_iff [] [] = (λ h. refl, λ h. refl)
units_eq_iff [] (d ∷ ds) = (λ h. cc, λ h. cc)
units_eq_iff (c ∷ cs) [] = (λ h. cc, λ h. cc)
units_eq_iff (c ∷ cs) (d ∷ ds) = ground (arith, units_eq_iff cs ds)

instance abbrev pub units_comparable : Comparable (List ℕ)
units_comparable = record { same = units_eq; same_iff = units_eq_iff }

-- `text.endsWith(end)`; what is longer than the text does not end it.
abbrev pub ends_with : List ℕ → List ℕ → Bool
ends_with end text = drop (length text - length end) text == end

-- `text.slice(0, -end.length)`, where the text has that end.
abbrev pub without_end : List ℕ → List ℕ → List ℕ
without_end end text = take (length text - length end) text

abbrev pub includes_unit : ℕ → List ℕ → Bool
includes_unit mark text = any (λ c. c == mark) text

-- `set.has(text)`, of a set of literals.
abbrev pub among : List String → List ℕ → Bool
among literals text = any (λ s. units s == text) literals

or_cases {ℓ κ} :
    {A : Type ℓ} {B : Type κ} (b c : Bool)
    → (b ≡ true → A)
    → (c ≡ true → B)
    → (b || c) ≡ true
    → A ⊎ B
or_cases true c f g h = inl (f refl)
or_cases false c f g h = inr (g h)

or_true : (b c : Bool) → (b ≡ true) ⊎ (c ≡ true) → (b || c) ≡ true
or_true true c h = refl
or_true false c (inl h) = cc
or_true false c (inr h) = h

-- The text is one of the literals.
abbrev pub IsAmong : List String → List ℕ → Type 0
IsAmong [] text = ⊥
IsAmong (s ∷ ss) text = (units s ≡ text) ⊎ IsAmong ss text

pub among_iff :
    (literals : List String) (text : List ℕ) → (among literals text ≡ true) ↔ IsAmong literals text
among_iff [] text = (λ h. cc, λ h. absurd h)
among_iff (s ∷ ss) text =
    let (to, from) = among_iff ss text in
    let (same, equal) = units_eq_iff (units s) text in
    (
      λ h. or_cases (units s == text) (among ss text) same to h,
      λ h. elim h [
        | inl e ↦ or_true (units s == text) (among ss text) (inl (equal e))
        | inr k ↦ or_true (units s == text) (among ss text) (inr (from k))
      ],
    )
