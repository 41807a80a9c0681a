-- ===== src/Shared/Result.antt =====
-- A value or the reason why there is none: what a function that throws gives.
use mathlib.Core.Path.{◌≡◌, refl}
use mathlib.Core.Logic.{◌⊎◌, inl, inr}
use mathlib.Core.Bool.{Bool, true, false}
use mathlib.Core.Option.{Option, none, some}

pub data Outcome {ℓ} (Reason Value : Type ℓ) : Type ℓ where
  ok : Value → Outcome Reason Value
  throw : Reason → Outcome Reason Value

module _ {ℓ} {Reason : Type ℓ} where
  infixl 5 ◌>>=◌ ◌>>◌
  abbrev pub ◌>>=◌ : {A B : Type ℓ} → Outcome Reason A → (A → Outcome Reason B) → Outcome Reason B
  ok value >>= next = next value
  throw reason >>= next = throw reason

  abbrev pub ◌>>◌ : {B : Type ℓ} → Outcome Reason (Unit {ℓ}) → Outcome Reason B → Outcome Reason B
  check >> next = check >>= λ _. next

  -- `if (bad) throw reason;`
  abbrev pub throw_if : Bool → Reason → Outcome Reason (Unit {ℓ})
  throw_if true reason = throw reason
  throw_if false reason = ok tt

  abbrev pub or_throw : {A : Type ℓ} → Option A → Reason → Outcome Reason A
  or_throw none reason = throw reason
  or_throw (some value) reason = ok value

  -- What a chain that gives a value went through.
  pub >>=-ok :
      {A B : Type ℓ} (first : Outcome Reason A) (next : A → Outcome Reason B) (b : B)
      → (first >>= next) ≡ ok b
      → (a : A) × (first ≡ ok a) × (next a ≡ ok b)
  >>=-ok (ok a) next b h = (a, refl, h)
  >>=-ok (throw reason) next b h = cc

pub Outcome-cases {ℓ} :
    {E A : Type ℓ} (o : Outcome E A) → ((a : A) × (o ≡ ok a)) ⊎ ((e : E) × (o ≡ throw e))
Outcome-cases (ok a) = inl (a, refl)
Outcome-cases (throw e) = inr (e, refl)
