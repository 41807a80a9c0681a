-- ===== src/Power/Days/Bits.antt =====
-- The days of the week as bits: what holds of every mask of seven bits.
use Prim.Native.Nat.{bit_and, bit_or}
use labkiosk.Shared.{
  ℕ, ◌^◌, ◌<◌, ◌≡◌, refl, Bool, true, false, not, ◌&&◌, ◌||◌, ◌==◌, nat_eq, nat_beq_iff, ltb, any,
  arith, ltb→lt,
}
use labkiosk.Shared.Tables.{holds_up_to, holds_at, agree, agree→eq}
use labkiosk.Power.Days.{covers, week_days, mask_to_days, days_of_list}

abbrev add_test : ℕ → ℕ → ℕ → Bool
add_test mask day d = agree (covers (bit_or mask (2 ^ day)) d) (covers mask d || day == d)

abbrev add_row : ℕ → ℕ → Bool
add_row mask day = ltb (bit_or mask (2 ^ day)) 128 && holds_up_to (add_test mask day) 6

add_table : holds_up_to (λ mask. holds_up_to (add_row mask) 6) 127 ≡ true
unfolding holds_up_to agree
add_table = refl

abbrev shared_test : ℕ → ℕ → Bool
shared_test a b = agree (bit_and a b == 0) (not (any (λ d. covers a d && covers b d) week_days))

shared_table : holds_up_to (λ a. holds_up_to (shared_test a) 127) 127 ≡ true
unfolding holds_up_to agree
shared_table = refl

module _ (mask day : ℕ) (m : mask < 128) (n : day < 7) where
  add_row_holds : add_row mask day ≡ true
  add_row_holds =
      holds_at (add_row mask) 6 day
        (holds_at (λ k. holds_up_to (add_row k) 6) 127 mask add_table (omega arith)) (omega arith)

  pub bit_or-bound : bit_or mask (2 ^ day) < 128
  bit_or-bound = ltb→lt _ _ (ground (arith, add_row_holds))

  pub covers-bit_or :
      (d : ℕ) → d < 7 → covers (bit_or mask (2 ^ day)) d ≡ (covers mask d || day == d)
  covers-bit_or d h =
      agree→eq _ _ (holds_at (add_test mask day) 6 d (ground (arith, add_row_holds)) (omega arith))

-- Two sets of days share none exactly if no day of the week is in both.
pub bit_and-shared :
    (a b : ℕ)
    → a < 128
    → b < 128
    → (bit_and a b == 0) ≡ not (any (λ d. covers a d && covers b d) week_days)
bit_and-shared a b h k = agree→eq _ _ (
    holds_at (shared_test a) 127 b
      (holds_at (λ x. holds_up_to (shared_test x) 127) 127 a shared_table (omega arith))
      (omega arith))

abbrev swap_test : ℕ → ℕ → Bool
swap_test a b = agree (bit_and a b == 0) (bit_and b a == 0)

swap_table : holds_up_to (λ a. holds_up_to (swap_test a) 127) 127 ≡ true
unfolding holds_up_to agree
swap_table = refl

pub bit_and-swap : (a b : ℕ) → a < 128 → b < 128 → (bit_and a b == 0) ≡ (bit_and b a == 0)
bit_and-swap a b h k = agree→eq _ _ (
    holds_at (swap_test a) 127 b
      (holds_at (λ x. holds_up_to (swap_test x) 127) 127 a swap_table (omega arith)) (omega arith))

listed_table : holds_up_to (λ mask. days_of_list 0 (mask_to_days mask) == mask) 127 ≡ true
unfolding holds_up_to days_of_list mask_to_days
listed_table = refl

-- A mask of days comes back from the list of its days.
pub days_of_list-mask_to_days : (mask : ℕ) → mask < 128 → days_of_list 0 (mask_to_days mask) ≡ mask
days_of_list-mask_to_days mask h =
    (nat_beq_iff _ _).0
      (holds_at (λ m. days_of_list 0 (mask_to_days m) == m) 127 mask listed_table (omega arith))

no_days : holds_up_to (λ d. not (covers 0 d)) 6 ≡ true
unfolding holds_up_to
no_days = refl

pub no_day : (d : ℕ) → d < 7 → covers 0 d ≡ false
no_day d h =
    let absent : not (covers 0 d) ≡ true =
      holds_at (λ d. not (covers 0 d)) 6 d no_days (omega arith) in
    ground arith
