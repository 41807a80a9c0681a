-- ===== src/Releases/Doubles.antt =====
-- The rounding of a long number: the halvings are enough for every number of 32 digits.
use labkiosk.Shared.{
  ℕ, zero, suc, ◌+◌, ◌*◌, ◌-◌, ◌/◌, ◌^◌, ◌≤◌, ◌<◌, ◌≡◌, sym, ap, ◌∙◌, true, List, [], ◌∷◌, is_digit,
  all, length, ltb, ltb→lt, Bool-cases, inl, inr, arith,
}
use mathlib.Core.Path.{subst}
use native.Mathlib.Nat.{
  div-div-eq-div-mul, pow-suc, mul_assoc, mul_comm, mul-le-mul_right, pow-le-pow_right,
}
use labkiosk.Lan.{decimal}
use labkiosk.Releases.{max_excess, excess_bits}

double : (e : ℕ) → 2 * 2 ^ e ≡ 2 ^ suc e
double e = omega (arith, pow-suc 2 e)

more : (fuel : ℕ) → 53 + suc fuel ≡ suc (53 + fuel)
more fuel = omega arith

half_lt : (n x : ℕ) → n < 2 * x → n / 2 < x
half_lt n x h = omega arith

halves : (n e x : ℕ) → n / 2 / 2 ^ e < x → n / 2 ^ suc e < x
halves n e x h = subst (λ t. t < x) (div-div-eq-div-mul n 2 (2 ^ e) ∙ ap (λ t. n / t) (double e)) h

-- A number of fewer than 53 bits and one for each halving ends below 53 bits.
pub excess_bits-enough : (fuel n : ℕ) → n < 2 ^ (53 + fuel) → n / 2 ^ excess_bits fuel n < 2 ^ 53
excess_bits-enough zero n h = omega arith
excess_bits-enough (suc fuel) n h = elim (Bool-cases (ltb n (2 ^ 53))) [
  | inl e ↦ rw e (let low = ltb→lt n (2 ^ 53) e in omega arith)
  | inr e ↦ rw e (
      halves n (excess_bits fuel (n / 2)) (2 ^ 53) (
        excess_bits-enough fuel (n / 2) (
          half_lt n (2 ^ (53 + fuel))
            (subst (λ t. n < t) (ap (λ t. 2 ^ t) (more fuel) ∙ sym (double (53 + fuel))) h))))
]

digits_step : (acc d p : ℕ) → d ≤ 9 → (acc * 10 + d + 1) * p ≤ (acc + 1) * (p * 10)
digits_step acc d p h =
    subst (λ t. (acc * 10 + d + 1) * p ≤ t)
      (mul_assoc (acc + 1) 10 p ∙ ap (λ t. (acc + 1) * t) (mul_comm 10 p))
      (mul-le-mul_right p (omega arith))

lt_of : (a b c : ℕ) → a < b → b ≤ c → a < c
lt_of a b c h k = omega arith

decimal_bound :
    (acc : ℕ) (cs : List ℕ) → all is_digit cs ≡ true → decimal acc cs < (acc + 1) * 10 ^ length cs
unfolding decimal
decimal_bound acc [] h = omega arith
decimal_bound acc (c ∷ cs) h =
    let ih = decimal_bound (acc * 10 + (c - b'0')) cs in
    let digit : c - b'0' ≤ 9 = ground arith in
    let step = digits_step acc (c - b'0') (10 ^ length cs) digit in
    let low = ih (ground arith) in
    subst (λ t. decimal (acc * 10 + (c - b'0')) cs < (acc + 1) * t) (sym (pow-suc 10 (length cs)))
      (lt_of (decimal (acc * 10 + (c - b'0')) cs) ((acc * 10 + (c - b'0') + 1) * 10 ^ length cs)
        ((acc + 1) * (10 ^ length cs * 10)) low step)

-- Of an identifier of up to 32 digits the 54 halvings that are granted leave a number of 53 bits.
pub excess_bits-digits :
    (part : List ℕ)
    → all is_digit part ≡ true
    → length part ≤ 32
    → decimal 0 part / 2 ^ excess_bits max_excess (decimal 0 part) < 2 ^ 53
excess_bits-digits part h k =
    let low = decimal_bound 0 part h in
    let most : 10 ^ length part ≤ 10 ^ 32 = pow-le-pow_right (omega arith) k in
    excess_bits-enough max_excess (decimal 0 part) (omega arith)
