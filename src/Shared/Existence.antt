-- ===== src/Shared/Existence.antt =====
-- Whether an item of a list has a property, and how many of them do.
use Prim.Native.Nat.{ℕ, zero, suc, ◌≤◌}
use mathlib.Core.Path.{◌≡◌, refl, sym, ap, subst}
use mathlib.Core.Logic.{◌↔◌, ◌⊎◌, inl, inr}
use mathlib.Core.Bool.{Bool, true, false, ◌&&◌}
use mathlib.Core.Option.{none, some}
use mathlib.Core.List.{List, [], ◌∷◌}
use native.Mathlib.Omega.{arith}
use labkiosk.Shared.Tests.{Bool-cases}
use labkiosk.Shared.Lists.{length, filter, find, any, All}

module _ {ℓ} {A : Type ℓ} (P : A → Type 0) where
  abbrev pub Any : List A → Type 0
  Any [] = ⊥
  Any (x ∷ xs) = P x ⊎ Any xs

  abbrev pub AtLeast : ℕ → List A → Type 0
  AtLeast zero xs = Unit
  AtLeast (suc n) [] = ⊥
  AtLeast (suc n) (x ∷ xs) = (P x × AtLeast n xs) ⊎ AtLeast (suc n) xs

module _ {ℓ} {A : Type ℓ} where
  pub filter-filter :
      (p q : A → Bool) (xs : List A) → filter p (filter q xs) ≡ filter (λ x. q x && p x) xs
  filter-filter p q [] = refl
  filter-filter p q (x ∷ xs) =
      let ih = filter-filter p q xs in
      elim (Bool-cases (q x)) [
        | inl e ↦ elim (Bool-cases (p x)) [
          | inl f ↦ rw (e, f) (ap (λ rest. x ∷ rest) ih)
          | inr f ↦ rw (e, f) ih
        ]
        | inr e ↦ rw e ih
      ]

module _ {ℓ} {A : Type ℓ} (p : A → Bool) (P : A → Type 0) (iff : (x : A) → (p x ≡ true) ↔ P x) where
  pub AtLeast-iff : (n : ℕ) (xs : List A) → (n ≤ length (filter p xs)) ↔ AtLeast P n xs
  AtLeast-iff zero xs = (λ h. tt, λ h. omega arith)
  AtLeast-iff (suc n) [] = (λ h. omega arith, λ h. absurd h)
  AtLeast-iff (suc n) (x ∷ xs) =
      let (fewer, fewer_of) = AtLeast-iff n xs in
      let (rest, rest_of) = AtLeast-iff (suc n) xs in
      elim (Bool-cases (p x)) [
        | inl e ↦ rw e (
          λ h. inl ((iff x).0 e, fewer (omega arith)),
          λ h. elim h [
            | inl (_, k) ↦ let m = fewer_of k in omega arith
            | inr k ↦ let m = rest_of k in omega arith
          ],
        )
        | inr e ↦ rw e (
          λ h. inr (rest h),
          λ h. elim h [ inl (k, _) ↦ let yes = (iff x).1 k in cc | inr k ↦ rest_of k ],
        )
      ]

  -- No item passes the test exactly if none has the property.
  pub none_iff : (xs : List A) → (any p xs ≡ false) ↔ All (λ x. ¬ P x) xs
  none_iff [] = (λ h. tt, λ h. refl)
  none_iff (x ∷ xs) =
      let (to, from) = none_iff xs in
      elim (Bool-cases (p x)) [
        | inl e ↦ rw e (λ h. cc, λ (k, _). absurd (k ((iff x).0 e)))
        | inr e ↦ rw e (λ h. (λ k. let yes = (iff x).1 k in cc, to h), λ (_, k). from k)
      ]

module _ {ℓ} {A : Type ℓ} where
  pub find-filter :
      (p q : A → Bool) (xs : List A) → find p (filter q xs) ≡ find (λ x. q x && p x) xs
  find-filter p q [] = refl
  find-filter p q (x ∷ xs) =
      let ih = find-filter p q xs in
      elim (Bool-cases (q x)) [
        | inl e ↦ elim (Bool-cases (p x)) [ inl f ↦ rw (e, f) refl | inr f ↦ rw (e, f) ih ]
        | inr e ↦ rw e ih
      ]

  -- What a search finds is an item of the list, and passes its test.
  pub find-Any :
      (P : A → Type 0) (p : A → Bool) (xs : List A) (y : A)
      → find p xs ≡ some y
      → (p y ≡ true → P y)
      → Any P xs
  find-Any P p [] y h k = cc
  find-Any P p (x ∷ xs) y h k = elim (Bool-cases (p x)) [
    | inl e ↦
        let same : some x ≡ some y = rw e at h in
        let it : x ≡ y = cc in inl (subst P (sym it) (k (subst (λ z. p z ≡ true) it e)))
    | inr e ↦ inr (find-Any P p xs y (rw e at h) k)
  ]

  pub find_none-All :
      (P : A → Type 0) (p : A → Bool) (xs : List A)
      → find p xs ≡ none
      → ((x : A) → p x ≡ false → P x)
      → All P xs
  find_none-All P p [] h k = tt
  find_none-All P p (x ∷ xs) h k = elim (Bool-cases (p x)) [
    | inl e ↦ let wrong : some x ≡ none = rw e at h in cc
    | inr e ↦ (k x e, find_none-All P p xs (rw e at h) k)
  ]

  pub any-Any :
      (P : A → Type 0) (p : A → Bool) (xs : List A)
      → ((x : A) → p x ≡ true → P x)
      → any p xs ≡ true
      → Any P xs
  any-Any P p [] k h = cc
  any-Any P p (x ∷ xs) k h = elim (Bool-cases (p x)) [
    | inl e ↦ inl (k x e)
    | inr e ↦ inr (any-Any P p xs k (rw e at h))
  ]
