-- ===== src/Guard/Access/Given.antt =====
-- guard.ts `requireTenantPermission`: whether the permissions of a row, whatever its JSON is, include the
-- one that is asked for or "*".
use labkiosk.Shared.{
  ℕ, ◌≡◌, ◌∙◌, ◌↔◌, ◌⊎◌, inl, inr, refl, sym, ap, Bool, true, false, Option, none, some, List, [],
  ◌∷◌, ◌++◌, String, ◌==◌, string_eq, units_comparable, units_eq_iff, option_eq, option_beq_iff,
  units, units_eq, length, take, take-append-drop, drop, Bool-cases, arith,
}
use labkiosk.Guard.Tenants.{Tenant}
use labkiosk.Guard.Access.{
  Permissions, listed, plain, no_list, TenantUser, includes_text, includes_element, unless_either,
  refusal_under,
}

abbrev pub IsListed : String → List (Option String) → Type 0
IsListed permission [] = ⊥
IsListed permission (e ∷ es) = (e ≡ some permission) ⊎ IsListed permission es

-- The permission is an element of the array, or a part of the text.
abbrev pub IsGiven : Permissions → String → Type 0
IsGiven (listed elements) permission = IsListed permission elements
IsGiven (plain text) permission =
    (before after : List ℕ) × (text ≡ before ++ (units permission ++ after))
IsGiven no_list permission = ⊥

abbrev pub IsGivenIn : Option Permissions → String → Type 0
IsGivenIn none permission = ⊥
IsGivenIn (some permissions) permission = IsGiven permissions permission ⊎ IsGiven permissions "*"

abbrev pub IsAllowedBy : Option TenantUser → String → Type 0
IsAllowedBy none permission = ⊥
IsAllowedBy (some u) permission = (u.is_org_admin ≡ true) ⊎ IsGivenIn u.permissions permission

abbrev pub IsOwnedBy : Option Tenant → String → Type 0
IsOwnedBy none user_id = ⊥
IsOwnedBy (some t) user_id = t.user_id ≡ user_id

includes_element_iff :
    (permission : String) (es : List (Option String))
    → (includes_element permission es ≡ true) ↔ IsListed permission es
includes_element_iff permission [] = (λ h. cc, λ h. absurd h)
includes_element_iff permission (e ∷ es) =
    let (to, from) = includes_element_iff permission es in
    let (same, equal) = option_beq_iff e (some permission) in
    (
      λ h. elim (Bool-cases (e == some permission)) [
        | inl k ↦ inl (same k)
        | inr k ↦ inr (to (ground arith))
      ],
      λ h. elim h [
        | inl k ↦ (let k2 = equal k in ground arith)
        | inr k ↦ (let k2 = from k in ground arith)
      ],
    )

take-append : (part after : List ℕ) → take (length part) (part ++ after) ≡ part
take-append [] after = refl
take-append (c ∷ cs) after = ap (λ rest. c ∷ rest) (take-append cs after)

includes_text_here : (part after : List ℕ) → includes_text part (part ++ after) ≡ true
unfolding units_eq
includes_text_here [] [] = refl
includes_text_here [] (c ∷ cs) = refl
includes_text_here (p ∷ ps) after =
    let here =
      (units_eq_iff (take (length (p ∷ ps)) ((p ∷ ps) ++ after)) (p ∷ ps)).1
        (take-append (p ∷ ps) after) in
    ground arith

includes_text_later :
    (part before after : List ℕ) → includes_text part (before ++ (part ++ after)) ≡ true
includes_text_later part [] after = includes_text_here part after
includes_text_later part (c ∷ cs) after = let ih = includes_text_later part cs after in ground arith

includes_text_lem :
    (part text : List ℕ)
    → includes_text part text ≡ true
    → (before after : List ℕ) × (text ≡ before ++ (part ++ after))
includes_text_lem part [] h = ([], [], ap (λ p. p ++ []) (sym ((units_eq_iff part []).0 h)))
includes_text_lem part (c ∷ cs) h = elim (Bool-cases (take (length part) (c ∷ cs) == part)) [
  | inl e ↦ (
    [],
    drop (length part) (c ∷ cs),
    sym (take-append-drop (length part) (c ∷ cs))
        ∙ ap (λ p. p ++ drop (length part) (c ∷ cs)) ((units_eq_iff _ part).0 e),
  )
  | inr e ↦
      let (before, after, whole) = includes_text_lem part cs (ground arith) in
      (c ∷ before, after, ap (λ rest. c ∷ rest) whole)
]

unless_either-none :
    (given all : Bool) (permission : String)
    → (unless_either given all permission ≡ none) ↔ ((given ≡ true) ⊎ (all ≡ true))
unless_either-none true all permission = (λ h. inl refl, λ h. refl)
unless_either-none false true permission = (λ h. inr refl, λ h. refl)
unless_either-none false false permission = (λ h. cc, λ h. elim h [ inl k ↦ cc | inr k ↦ cc ])

pub refusal_under-none :
    (permissions : Permissions) (permission : String)
    → (refusal_under permissions permission ≡ none)
      ↔ (IsGiven permissions permission ⊎ IsGiven permissions "*")
unfolding refusal_under
refusal_under-none (listed es) permission =
    let (to, from) =
      unless_either-none (includes_element permission es) (includes_element "*" es) permission in
    let one = includes_element_iff permission es in
    let every = includes_element_iff "*" es in
    (
      λ h. elim (to h) [ inl k ↦ inl (one.0 k) | inr k ↦ inr (every.0 k) ],
      λ h. elim h [ inl k ↦ from (inl (one.1 k)) | inr k ↦ from (inr (every.1 k)) ],
    )
refusal_under-none (plain text) permission =
    let (to, from) =
      unless_either-none (includes_text (units permission) text) (includes_text (units "*") text)
        permission in
    (
      λ h. elim (to h) [
        | inl k ↦ inl (includes_text_lem (units permission) text k)
        | inr k ↦ inr (includes_text_lem (units "*") text k)
      ],
      λ h. elim h [
        | inl (before, after, whole) ↦ from (
            inl (
              ap (includes_text (units permission)) whole
              ∙ includes_text_later (units permission) before after))
        | inr (before, after, whole) ↦ from (
            inr
              (ap (includes_text (units "*")) whole ∙ includes_text_later (units "*") before after))
      ],
    )
refusal_under-none no_list permission =
    (λ h. cc, λ h. elim h [ inl k ↦ absurd k | inr k ↦ absurd k ])
