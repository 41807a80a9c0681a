-- ===== src/Releases/Total.antt =====
-- Comparisons that are those of a total order.
use labkiosk.Shared.{◌≡◌, ◌≢◌, ◌⊎◌, inl, inr, refl, sym, ap, ◌∙◌, List, [], ◌∷◌, arith}
use labkiosk.Releases.{Comparison, less, equal, greater, compare_number, decided, compare_items}

abbrev pub flip : Comparison → Comparison
flip less = greater
flip equal = equal
flip greater = less

-- What a comparison needs to be that of a total order.
pub record IsTotal {ℓ} {A : Type ℓ} (compare : A → A → Comparison) : Type ℓ where
  pub same : (a b : A) → compare a b ≡ equal → a ≡ b
  pub itself : (a : A) → compare a a ≡ equal
  pub turned : (a b : A) → compare b a ≡ flip (compare a b)
  pub trans : (a b c : A) → compare a b ≡ less → compare b c ≡ less → compare a c ≡ less

pub numbers-IsTotal : IsTotal compare_number
numbers-IsTotal = record {
  same = λ a b h. ground arith;
  itself = λ a. ground arith;
  turned = λ a b. ground arith;
  trans = λ a b c h k. ground arith;
}

decided_turned : (x y : Comparison) → decided (flip x) (flip y) ≡ flip (decided x y)
decided_turned less y = refl
decided_turned equal y = refl
decided_turned greater y = refl

decided_equal : (x y : Comparison) → decided x y ≡ equal → (x ≡ equal) × (y ≡ equal)
decided_equal less y h = cc
decided_equal equal y h = (refl, h)
decided_equal greater y h = cc

decided_less : (x y : Comparison) → decided x y ≡ less → (x ≡ less) ⊎ ((x ≡ equal) × (y ≡ less))
decided_less less y h = inl refl
decided_less equal y h = inr (refl, h)
decided_less greater y h = cc

module _ {ℓ} {A : Type ℓ} (compare : A → A → Comparison) (total : IsTotal compare) where
  -- What decides later is asked only where the first is the same.
  first_trans :
      (a b c : A) (p q r : Comparison)
      → decided (compare a b) p ≡ less
      → decided (compare b c) q ≡ less
      → (p ≡ less → q ≡ less → r ≡ less)
      → decided (compare a c) r ≡ less
  first_trans a b c p q r h k rest = elim (decided_less (compare a b) p h) [
    | inl ab ↦ elim (decided_less (compare b c) q k) [
      | inl bc ↦ ap (λ t. decided t r) (total.trans a b c ab bc)
      | inr (bc, _) ↦ ap (λ t. decided t r) (ap (compare a) (sym (total.same b c bc)) ∙ ab)
    ]
    | inr (ab, p_less) ↦ elim (decided_less (compare b c) q k) [
      | inl bc ↦ ap (λ t. decided t r) (ap (λ t. compare t c) (total.same a b ab) ∙ bc)
      | inr (bc, q_less) ↦
          ap (λ t. decided t r)
            (ap (λ t. compare t c) (total.same a b ab ∙ total.same b c bc) ∙ total.itself c)
          ∙ rest p_less q_less
    ]
  ]

  items_same : (xs ys : List A) → compare_items compare xs ys ≡ equal → xs ≡ ys
  items_same [] [] h = refl
  items_same [] (y ∷ ys) h = cc
  items_same (x ∷ xs) [] h = cc
  items_same (x ∷ xs) (y ∷ ys) h =
      let (first, rest) = decided_equal (compare x y) (compare_items compare xs ys) h in
      let e = total.same x y first in let es = items_same xs ys rest in cc

  items_itself : (xs : List A) → compare_items compare xs xs ≡ equal
  items_itself [] = refl
  items_itself (x ∷ xs) =
      ap (λ t. decided t (compare_items compare xs xs)) (total.itself x) ∙ items_itself xs

  items_turned : (xs ys : List A) → compare_items compare ys xs ≡ flip (compare_items compare xs ys)
  items_turned [] [] = refl
  items_turned [] (y ∷ ys) = refl
  items_turned (x ∷ xs) [] = refl
  items_turned (x ∷ xs) (y ∷ ys) =
      ap (λ t. decided t (compare_items compare ys xs)) (total.turned x y)
      ∙ ap (decided (flip (compare x y))) (items_turned xs ys)
      ∙ decided_turned (compare x y) (compare_items compare xs ys)

  items_trans :
      (xs ys zs : List A)
      → compare_items compare xs ys ≡ less
      → compare_items compare ys zs ≡ less
      → compare_items compare xs zs ≡ less
  items_trans [] [] zs h k = cc
  items_trans (x ∷ xs) [] zs h k = cc
  items_trans [] (y ∷ ys) [] h k = cc
  items_trans [] (y ∷ ys) (z ∷ zs) h k = refl
  items_trans (x ∷ xs) (y ∷ ys) [] h k = cc
  items_trans (x ∷ xs) (y ∷ ys) (z ∷ zs) h k =
      first_trans x y z (compare_items compare xs ys) (compare_items compare ys zs)
        (compare_items compare xs zs) h k (λ p q. items_trans xs ys zs p q)

  pub items-IsTotal : IsTotal (compare_items compare)
  items-IsTotal = record {
    same = items_same;
    itself = items_itself;
    turned = items_turned;
    trans = items_trans;
  }

-- Two parts of a thing that make it up, compared one after the other.
module _ {ℓ} {A B C : Type ℓ} (f : A → A → Comparison) (g : B → B → Comparison) (p : C → A)
    (q : C → B) (whole_of : (x y : C) → p x ≡ p y → q x ≡ q y → x ≡ y) (f_total : IsTotal f)
    (g_total : IsTotal g) where
  both_same : (x y : C) → decided (f (p x) (p y)) (g (q x) (q y)) ≡ equal → x ≡ y
  both_same x y h =
      let (first, second) = decided_equal (f (p x) (p y)) (g (q x) (q y)) h in
      whole_of x y (f_total.same (p x) (p y) first) (g_total.same (q x) (q y) second)

  pub both-IsTotal : IsTotal (λ x y. decided (f (p x) (p y)) (g (q x) (q y)))
  both-IsTotal = record {
    same = both_same;
    itself = λ x. ap (λ t. decided t (g (q x) (q x))) (f_total.itself (p x)) ∙ g_total.itself (q x);
    turned = λ x y.
        ap (λ t. decided t (g (q y) (q x))) (f_total.turned (p x) (p y))
        ∙ ap (decided (flip (f (p x) (p y)))) (g_total.turned (q x) (q y))
        ∙ decided_turned (f (p x) (p y)) (g (q x) (q y));
    trans = λ x y z h k.
        first_trans f f_total (p x) (p y) (p z) (g (q x) (q y)) (g (q y) (q z)) (g (q x) (q z)) h k
          (λ a b. g_total.trans (q x) (q y) (q z) a b);
  }

Comparison-cases : (x : Comparison) → (x ≡ less) ⊎ (x ≡ equal) ⊎ (x ≡ greater)
Comparison-cases less = inl refl
Comparison-cases equal = inr (inl refl)
Comparison-cases greater = inr (inr refl)

module _ {ℓ} {A : Type ℓ} (compare : A → A → Comparison) (total : IsTotal compare) where
  pub later_trans :
      (a b c : A) → compare a b ≢ greater → compare b c ≢ greater → compare a c ≢ greater
  later_trans a b c h k e = elim (Comparison-cases (compare a b)) [
    | inl ab ↦ elim (Comparison-cases (compare b c)) [
      | inl bc ↦ (let ac = total.trans a b c ab bc in cc)
      | inr (inl bc) ↦ (let same = ap (compare a) (total.same b c bc) in cc)
      | inr (inr bc) ↦ k bc
    ]
    | inr (inl ab) ↦ k (ap (λ t. compare t c) (sym (total.same a b ab)) ∙ e)
    | inr (inr ab) ↦ h ab
  ]
