-- ===== src/Releases/Order.antt =====
-- The order of versions is a total one.
use labkiosk.Shared.{
  Bool, true, false, not, ◌&&◌, Bool-cases, inl, inr, arith, ℕ, ◌≡◌, ◌≢◌, ◌↔◌, refl, sym, ap, ◌∙◌,
  Option, none, some, List,
}
use labkiosk.Releases.{
  Comparison, less, equal, greater, Identifier, number, word, Core, VersionKey, Version,
  compare_number, decided, compare_items, compare_identifier, compare_core, compare_pre,
  compare_versions,
}
use labkiosk.Releases.Total.{
  flip, IsTotal, numbers-IsTotal, items-IsTotal, both-IsTotal, later_trans,
}

words_IsTotal : IsTotal (compare_items compare_number)
words_IsTotal = items-IsTotal compare_number numbers-IsTotal

identifier_same : (a b : Identifier) → compare_identifier a b ≡ equal → a ≡ b
identifier_same (number a) (number b) h = ap number (numbers-IsTotal.same a b h)
identifier_same (number a) (word t) h = cc
identifier_same (word s) (number b) h = cc
identifier_same (word s) (word t) h = ap word (words_IsTotal.same s t h)

identifier_itself : (a : Identifier) → compare_identifier a a ≡ equal
identifier_itself (number a) = numbers-IsTotal.itself a
identifier_itself (word s) = words_IsTotal.itself s

identifier_turned : (a b : Identifier) → compare_identifier b a ≡ flip (compare_identifier a b)
identifier_turned (number a) (number b) = numbers-IsTotal.turned a b
identifier_turned (number a) (word t) = refl
identifier_turned (word s) (number b) = refl
identifier_turned (word s) (word t) = words_IsTotal.turned s t

identifier_trans :
    (a b c : Identifier)
    → compare_identifier a b ≡ less
    → compare_identifier b c ≡ less
    → compare_identifier a c ≡ less
identifier_trans (number a) (number b) (number c) h k = numbers-IsTotal.trans a b c h k
identifier_trans (number a) b (word u) h k = refl
identifier_trans (number a) (word t) (number c) h k = cc
identifier_trans (word s) (number b) c h k = cc
identifier_trans (word s) (word t) (number c) h k = cc
identifier_trans (word s) (word t) (word u) h k = words_IsTotal.trans s t u h k

identifiers-IsTotal : IsTotal compare_identifier
identifiers-IsTotal = record {
  same = identifier_same;
  itself = identifier_itself;
  turned = identifier_turned;
  trans = identifier_trans;
}

pres-IsTotal : IsTotal (compare_items compare_identifier)
pres-IsTotal = items-IsTotal compare_identifier identifiers-IsTotal

pre_same : (a b : Option (List Identifier)) → compare_pre a b ≡ equal → a ≡ b
pre_same none none h = refl
pre_same none (some b) h = cc
pre_same (some a) none h = cc
pre_same (some a) (some b) h = ap some (pres-IsTotal.same a b h)

pre_itself : (a : Option (List Identifier)) → compare_pre a a ≡ equal
pre_itself none = refl
pre_itself (some a) = pres-IsTotal.itself a

pre_turned : (a b : Option (List Identifier)) → compare_pre b a ≡ flip (compare_pre a b)
pre_turned none none = refl
pre_turned none (some b) = refl
pre_turned (some a) none = refl
pre_turned (some a) (some b) = pres-IsTotal.turned a b

pre_trans :
    (a b c : Option (List Identifier))
    → compare_pre a b ≡ less
    → compare_pre b c ≡ less
    → compare_pre a c ≡ less
pre_trans none none c h k = cc
pre_trans none (some b) c h k = cc
pre_trans (some a) none none h k = cc
pre_trans (some a) none (some c) h k = cc
pre_trans (some a) (some b) none h k = refl
pre_trans (some a) (some b) (some c) h k = pres-IsTotal.trans a b c h k

pre-IsTotal : IsTotal compare_pre
pre-IsTotal = record {
  same = pre_same;
  itself = pre_itself;
  turned = pre_turned;
  trans = pre_trans;
}

abbrev numbers_of : Core → ℕ × ℕ
numbers_of c = (c.minor, c.patch)

pair-IsTotal :
    IsTotal {A = ℕ × ℕ} (λ x y. decided (compare_number x.0 y.0) (compare_number x.1 y.1))
pair-IsTotal =
    both-IsTotal compare_number compare_number (λ x. x.0) (λ x. x.1) (λ x y e f. λ i. (e i, f i))
      numbers-IsTotal numbers-IsTotal

core-IsTotal : IsTotal compare_core
core-IsTotal =
    both-IsTotal compare_number
      (λ (x : ℕ × ℕ) (y : ℕ × ℕ). decided (compare_number x.0 y.0) (compare_number x.1 y.1))
      (λ c. c.major) numbers_of
      (λ x y e f. λ i. record { major = e i; minor = (f i).0; patch = (f i).1 }) numbers-IsTotal
      pair-IsTotal

abbrev compare_keys : VersionKey → VersionKey → Comparison
compare_keys a b = decided (compare_core a.core b.core) (compare_pre a.pre b.pre)

keys-IsTotal : IsTotal compare_keys
keys-IsTotal =
    both-IsTotal compare_core compare_pre (λ k. k.core) (λ k. k.pre)
      (λ x y e f. λ i. record { core = e i; pre = f i }) core-IsTotal pre-IsTotal

pub compare_versions_turned : (a b : Version) → compare_versions b a ≡ flip (compare_versions a b)
unfolding compare_versions
compare_versions_turned a b = keys-IsTotal.turned a.key b.key

pub compare_versions_later :
    (a b c : Version)
    → compare_versions a b ≢ greater
    → compare_versions b c ≢ greater
    → compare_versions a c ≢ greater
unfolding compare_versions
compare_versions_later a b c = later_trans compare_keys keys-IsTotal a.key b.key c.key

abbrev pub is_later : Comparison → Bool
is_later greater = true
is_later equal = false
is_later less = false

not_greater : (x : Comparison) → is_later x ≡ false → x ≢ greater
not_greater x h e = let wrong : false ≡ true = sym h ∙ ap is_later e in cc

later_is : (x : Comparison) → is_later x ≡ true → x ≡ greater
later_is greater h = refl
later_is equal h = cc
later_is less h = cc

not_both :
    (x y z : Comparison)
    → (x ≢ greater → y ≢ greater → z ≢ greater)
    → (not (is_later x) && not (is_later y) && is_later z) ≡ false
not_both x y z h = elim (Bool-cases (is_later x)) [
  | inl e ↦ ground arith
  | inr e ↦ elim (Bool-cases (is_later y)) [
    | inl f ↦ ground arith
    | inr f ↦ elim (Bool-cases (is_later z)) [
      | inl g ↦ absurd (h (not_greater x e) (not_greater y f) (later_is z g))
      | inr g ↦ ground arith
    ]
  ]
]

compare_versions-same_iff : (a b : Version) → (compare_versions a b ≡ equal) ↔ (a.key ≡ b.key)
unfolding compare_versions
compare_versions-same_iff a b = (
  λ e. keys-IsTotal.same a.key b.key e,
  λ e. ap (compare_keys a.key) (sym e) ∙ keys-IsTotal.itself a.key,
)

-- Versions compare equal exactly if they have the same key, turning a comparison round turns its
-- answer round, and it never is that a first one is no later than a second, the second no later than a
-- third, and the first later than the third.
pub compare_versions-total :
    (a b c : Version)
    → ((compare_versions a b ≡ equal) ↔ (a.key ≡ b.key))
      × (compare_versions b a ≡ flip (compare_versions a b))
      × ((not (is_later (compare_versions a b))
            && not (is_later (compare_versions b c))
            && is_later (compare_versions a c))
          ≡ false)
compare_versions-total a b c = (
  compare_versions-same_iff a b,
  compare_versions_turned a b,
  not_both (compare_versions a b) (compare_versions b c) (compare_versions a c)
      (compare_versions_later a b c),
)
