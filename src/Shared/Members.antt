-- ===== src/Shared/Members.antt =====
-- Membership and occurrences of a text in a list, and what counting says of distinct lists.
use Prim.Native.Nat.{ℕ, ◌+◌, ◌≤◌, ◌<◌}
use Prim.Native.String.{String}
use mathlib.Core.Path.{◌≡◌, refl}
use mathlib.Core.Bool.{Bool, true, false, not, ◌&&◌, ◌||◌}
use mathlib.Core.List.{List, [], ◌∷◌, ◌++◌, map}
use native.Mathlib.Omega.{arith}
use text.Mathlib.TextEquality.{eq_iff}
use labkiosk.Shared.Tests.{◌==◌, string_eq, if◌then◌else◌}
use labkiosk.Shared.Lists.{length, filter, any}
use labkiosk.Shared.Counting.{count, count_congr, count_disjoint}

-- `Array.prototype.includes`, `Set.prototype.has`.
abbrev pub mem : String → List String → Bool
mem c [] = false
mem c (x ∷ xs) = x == c || mem c xs

abbrev pub occurrences : String → List String → ℕ
occurrences c xs = count (λ x. x == c) xs

-- No text twice.
abbrev pub IsDistinct : List String → Type 0
IsDistinct xs = (c : String) → occurrences c xs ≤ 1

-- Every text of `xs` is in `ys`, at least as often.
abbrev pub IsWithin : List String → List String → Type 0
IsWithin xs ys = (c : String) → occurrences c xs ≤ occurrences c ys

-- `SELECT DISTINCT`: SQL leaves the order open, and here the last of equals stays.
abbrev pub distinct : List String → List String
distinct [] = []
distinct (x ∷ xs) = if mem x xs then distinct xs else x ∷ distinct xs

pub mem_of_occurrences : (c : String) (xs : List String) → 0 < occurrences c xs → mem c xs ≡ true
mem_of_occurrences c [] h = absurd (omega arith)
mem_of_occurrences c (x ∷ xs) h = ground (arith, mem_of_occurrences c xs)

pub occurrences_of_mem : (c : String) (xs : List String) → mem c xs ≡ true → 0 < occurrences c xs
occurrences_of_mem c [] h = cc
occurrences_of_mem c (x ∷ xs) h = ground (arith, occurrences_of_mem c xs)

pub mem-distinct : (c : String) (xs : List String) → mem c (distinct xs) ≡ mem c xs
mem-distinct c [] = refl
mem-distinct c (x ∷ xs) = ground (arith, mem-distinct c xs, eq_iff x c)

pub distinct-IsDistinct : (xs : List String) → IsDistinct (distinct xs)
distinct-IsDistinct [] c = omega arith
distinct-IsDistinct (x ∷ xs) c = ground (
  arith,
  distinct-IsDistinct xs c,
  eq_iff x c,
  mem-distinct x xs,
  mem_of_occurrences x (distinct xs),
)

pub occurrences-filter :
    (p : String → Bool) (c : String) (xs : List String)
    → occurrences c (filter p xs) ≡ (if p c then occurrences c xs else 0)
occurrences-filter p c [] = ground arith
occurrences-filter p c (x ∷ xs) = ground (arith, occurrences-filter p c xs, eq_iff x c)

pub ==_sym : (a b : String) → (a == b) ≡ (b == a)
==_sym a b = ground (arith, eq_iff a b, eq_iff b a)

pub IsWithin-tail : (x : String) (xs ys : List String) → IsWithin (x ∷ xs) ys → IsWithin xs ys
IsWithin-tail x xs ys h c = ground (arith, h c)

-- The first of a list that is within a distinct one is once in that one, and not in the rest.
occurrences_head :
    (x : String) (xs ys : List String)
    → IsDistinct ys
    → IsWithin (x ∷ xs) ys
    → (occurrences x ys ≡ 1) × (mem x xs ≡ false)
occurrences_head x xs ys d h = ground (arith, h x, d x, eq_iff x x, occurrences_of_mem x xs)

count_none {ℓ} : {A : Type ℓ} (ys : List A) → count (λ (y : A). false) ys ≡ 0
count_none [] = refl
count_none (y ∷ ys) = count_none ys

-- Of a distinct list, the members of a list within it are as many as that list is long.
pub count-mem :
    (xs ys : List String) → IsDistinct ys → IsWithin xs ys → count (λ y. mem y xs) ys ≡ length xs
count-mem [] ys d h = count_none ys
count-mem (x ∷ xs) ys d h =
    let head = occurrences_head x xs ys d h in
    let split =
      count_disjoint (λ y. x == y) (λ y. mem y xs) (λ y. mem y (x ∷ xs)) ys (λ y. refl)
        (λ y e. ground (arith, head.1, (eq_iff x y).0 e)) in
    omega (
      arith,
      split,
      head.0,
      count_congr (λ y. x == y) (λ y. y == x) ys (λ y. ==_sym x y),
      count-mem xs ys d (IsWithin-tail x xs ys h),
    )

module _ (p : String → Bool) (xs ys : List String) (h : IsWithin xs (filter p ys)) where
  pub mem_filtered : (y : String) → mem y xs ≡ true → p y ≡ true
  mem_filtered y m = ground (arith, h y, occurrences-filter p y ys, occurrences_of_mem y xs)

  pub IsWithin-filter : IsWithin xs ys
  IsWithin-filter c = ground (arith, h c, occurrences-filter p c ys)

-- What passes a test and is not in a list taken from what passes: that many fewer.
pub count_without :
    (p : String → Bool) (xs ys : List String)
    → IsDistinct ys
    → IsWithin xs (filter p ys)
    → count (λ y. p y && not (mem y xs)) ys + length xs ≡ count p ys
count_without p xs ys d h = omega (
  arith,
  count_disjoint (λ y. p y && not (mem y xs)) (λ y. mem y xs) p ys
      (λ y. ground (arith, mem_filtered p xs ys h y)) (λ y e. ground arith),
  count-mem xs ys d (IsWithin-filter p xs ys h),
)

-- What passes a test or is in a list taken from what does not pass: that many more.
pub count_with :
    (p : String → Bool) (xs ys : List String)
    → IsDistinct ys
    → IsWithin xs (filter (λ y. not (p y)) ys)
    → count (λ y. p y || mem y xs) ys ≡ count p ys + length xs
count_with p xs ys d h = omega (
  arith,
  count_disjoint p (λ y. mem y xs) (λ y. p y || mem y xs) ys (λ y. refl)
      (λ y e. ground (arith, mem_filtered (λ y. not (p y)) xs ys h y)),
  count-mem xs ys d (IsWithin-filter (λ y. not (p y)) xs ys h),
)

pub count_congr_mem :
    (p q : String → Bool) (xs : List String)
    → ((x : String) → mem x xs ≡ true → p x ≡ q x)
    → count p xs ≡ count q xs
count_congr_mem p q [] h = refl
count_congr_mem p q (x ∷ xs) h =
    let rest = count_congr_mem p q xs (λ y m. h y (ground arith)) in
    let first = h x (ground (arith, eq_iff x x)) in ground arith

pub mem-append : (c : String) (xs ys : List String) → mem c (xs ++ ys) ≡ (mem c xs || mem c ys)
mem-append c [] ys = refl
mem-append c (x ∷ xs) ys = ground (arith, mem-append c xs ys)

pub mem-map {ℓ} :
    {A : Type ℓ} (f : A → String) (c : String) (xs : List A)
    → mem c (map f xs) ≡ any (λ x. f x == c) xs
mem-map f c [] = refl
mem-map f c (x ∷ xs) = ground (arith, mem-map f c xs)
