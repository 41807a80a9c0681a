-- ===== src/Shared/Tables.antt =====
-- A test that holds at every number up to a bound, by evaluation.
use Prim.Native.Nat.{ℕ, zero, suc, ◌≤◌}
use mathlib.Core.Path.{◌≡◌, ap}
use mathlib.Core.Logic.{inl, inr}
use mathlib.Core.Bool.{Bool, true, false, not, ◌&&◌}
use native.Mathlib.Omega.{arith}
use labkiosk.Shared.Tests.{leb, leb→le, leb_false→lt, Bool-cases}

unfoldable pub holds_up_to : (ℕ → Bool) → ℕ → Bool
holds_up_to test zero = test zero
holds_up_to test (suc top) = holds_up_to test top && test (suc top)

zero_of_le : (n : ℕ) → n ≤ 0 → n ≡ 0
zero_of_le n h = omega arith

pub holds_at : (test : ℕ → Bool) (top n : ℕ) → holds_up_to test top ≡ true → n ≤ top → test n ≡ true
unfolding holds_up_to
holds_at test zero n h le = ground (arith, ap test (zero_of_le n le))
holds_at test (suc top) n h le = elim (Bool-cases (leb n top)) [
  | inl below ↦ holds_at test top n (ground arith) (leb→le n top below)
  | inr above ↦
      let at_top : n ≡ suc top = omega (arith, leb_false→lt n top above) in
      ground (arith, ap test at_top)
]

unfoldable pub agree : Bool → Bool → Bool
agree true b = b
agree false b = not b

pub agree→eq : (a b : Bool) → agree a b ≡ true → a ≡ b
unfolding agree
agree→eq a b h = ground arith
