-- ===== src/Shared/Sorting.antt =====
-- `Array.prototype.sort`, which is stable, by the comparison `before a b`: whether `a` may stand
-- in front of `b` (the source's compare function gives no positive number).
use Prim.Native.Nat.{ℕ, zero, suc}
use mathlib.Core.Path.{◌≡◌, refl}
use mathlib.Core.Bool.{Bool, true, false}
use mathlib.Core.List.{List, [], ◌∷◌}
use native.Mathlib.Omega.{arith}
use mathlib.Core.Logic.{inl, inr}
use labkiosk.Shared.Tests.{if◌then◌else◌, Bool-cases}
use labkiosk.Shared.Lists.{filter, All-filter, length, take, drop, All, any}
use labkiosk.Shared.Counting.{count}

module _ {ℓ} {A : Type ℓ} (before : A → A → Bool) where
  abbrev pub insert : A → List A → List A
  insert x [] = x ∷ []
  insert x (y ∷ ys) = if before x y then x ∷ y ∷ ys else y ∷ insert x ys

  abbrev pub sort : List A → List A
  sort [] = []
  sort (x ∷ xs) = insert x (sort xs)

  pub count-insert : (p : A → Bool) (x : A) (xs : List A) → count p (insert x xs) ≡ count p (x ∷ xs)
  count-insert p x [] = refl
  count-insert p x (y ∷ ys) = ground (arith, count-insert p x ys)

  -- Sorting keeps how many items satisfy a test.
  pub count-sort : (p : A → Bool) (xs : List A) → count p (sort xs) ≡ count p xs
  count-sort p [] = refl
  count-sort p (x ∷ xs) = ground (arith, count-insert p x (sort xs), count-sort p xs)

  pub length-insert : (x : A) (xs : List A) → length (insert x xs) ≡ suc (length xs)
  length-insert x [] = refl
  length-insert x (y ∷ ys) = ground (arith, length-insert x ys)

  pub length-sort : (xs : List A) → length (sort xs) ≡ length xs
  length-sort [] = refl
  length-sort (x ∷ xs) = ground (arith, length-insert x (sort xs), length-sort xs)

  any-insert : (p : A → Bool) (x : A) (xs : List A) → any p (insert x xs) ≡ any p (x ∷ xs)
  any-insert p x [] = refl
  any-insert p x (y ∷ ys) = ground (arith, any-insert p x ys)

  pub any-sort : (p : A → Bool) (xs : List A) → any p (sort xs) ≡ any p xs
  any-sort p [] = refl
  any-sort p (x ∷ xs) = ground (arith, any-insert p x (sort xs), any-sort p xs)

  module _ {κ} (P : A → Type κ) where
    pub All-insert : (x : A) (xs : List A) → P x → All P xs → All P (insert x xs)
    All-insert x [] h k = (h, tt)
    All-insert x (y ∷ ys) h (k, ks) = ground (arith, All-insert x ys h ks)

    pub All-sort : (xs : List A) → All P xs → All P (sort xs)
    All-sort [] h = tt
    All-sort (x ∷ xs) (h, hs) = All-insert x (sort xs) h (All-sort xs hs)

-- Every item stands in the relation to all items behind it.
abbrev pub IsSortedBy {ℓ κ} : {A : Type ℓ} → (A → A → Type κ) → List A → Type κ
IsSortedBy R [] = Unit
IsSortedBy R (x ∷ xs) = All (R x) xs × IsSortedBy R xs

module _ {ℓ κ} {A : Type ℓ} (R : A → A → Type κ)
    (R_trans : (x y z : A) → R x y → R y z → R x z) where
  All-trans : (x y : A) (zs : List A) → R x y → All (R y) zs → All (R x) zs
  All-trans x y [] h k = tt
  All-trans x y (z ∷ zs) h (k, ks) = (R_trans x y z h k, All-trans x y zs h ks)

  module _ (before : A → A → Bool) (in_order : (x y : A) → before x y ≡ true → R x y)
      (out_of_order : (x y : A) → before x y ≡ false → R y x) where
    insert-IsSortedBy : (x : A) (xs : List A) → IsSortedBy R xs → IsSortedBy R (insert before x xs)
    insert-IsSortedBy x [] h = (tt, tt)
    insert-IsSortedBy x (y ∷ ys) (h, hs) = elim (Bool-cases (before x y)) [
      | inl e ↦ rw e (((in_order x y e), All-trans x y ys (in_order x y e) h), (h, hs))
      | inr e ↦
          rw e (All-insert before (R y) x ys (out_of_order x y e) h, insert-IsSortedBy x ys hs)
    ]

    -- The sorted list is in order, whatever the comparison makes of equals.
    pub sort-IsSortedBy : (xs : List A) → IsSortedBy R (sort before xs)
    sort-IsSortedBy [] = tt
    sort-IsSortedBy (x ∷ xs) = insert-IsSortedBy x (sort before xs) (sort-IsSortedBy xs)

module _ {ℓ κ} {A : Type ℓ} (P : A → Type κ) where
  pub All-drop : (n : ℕ) (xs : List A) → All P xs → All P (drop n xs)
  All-drop zero xs h = h
  All-drop (suc n) [] h = tt
  All-drop (suc n) (x ∷ xs) (h, hs) = All-drop n xs hs

  pub All-take : (n : ℕ) (xs : List A) → All P xs → All P (take n xs)
  All-take zero xs h = tt
  All-take (suc n) [] h = tt
  All-take (suc n) (x ∷ xs) (h, hs) = (h, All-take n xs hs)

  pub All-both : (Q : A → Type κ) (xs : List A) → All P xs → All Q xs → All (λ x. P x × Q x) xs
  All-both Q [] h k = tt
  All-both Q (x ∷ xs) (h, hs) (k, ks) = ((h, k), All-both Q xs hs ks)

module _ {ℓ κ} {A : Type ℓ} (R : A → A → Type κ) where
  pub filter-IsSortedBy :
      (p : A → Bool) (xs : List A) → IsSortedBy R xs → IsSortedBy R (filter p xs)
  filter-IsSortedBy p [] h = tt
  filter-IsSortedBy p (x ∷ xs) (h, hs) = elim (Bool-cases (p x)) [
    | inl e ↦ rw e (All-filter (R x) p xs h, filter-IsSortedBy p xs hs)
    | inr e ↦ rw e (filter-IsSortedBy p xs hs)
  ]

  -- What is taken off the front stands in the relation to all that is left.
  pub take-drop-IsSortedBy :
      (n : ℕ) (xs : List A) → IsSortedBy R xs → All (λ a. All (R a) (drop n xs)) (take n xs)
  take-drop-IsSortedBy zero xs h = tt
  take-drop-IsSortedBy (suc n) [] h = tt
  take-drop-IsSortedBy (suc n) (x ∷ xs) (h, hs) =
      (All-drop (R x) n xs h, take-drop-IsSortedBy n xs hs)
