-- ===== src/Power/Followed.antt =====
-- Which schedule a workstation follows on a day: its group's, else the one for every workstation.
use labkiosk.Shared.{
  ℕ, zero, suc, ◌<◌, ◌≡◌, ◌∙◌, refl, sym, true, false, Option, none, some, List, [], ◌∷◌, ◌++◌, map,
  String, any, is_some, arith, Bool-cases, inl, inr,
}
use labkiosk.Power.Days.{week_days}
use labkiosk.Power.Week.{
  PowerDay, PowerRule, applies, has_text, own_rule, power_day, effective_power, AreExclusive,
  find-applies,
}

-- The entry of a week for a day.
abbrev pub entry : List (Option PowerDay) → ℕ → Option PowerDay
entry [] d = none
entry (p ∷ ps) zero = p
entry (p ∷ ps) (suc d) = entry ps d

-- What a workstation does on a day, by what it is told: no week at all means that it is never
-- switched off.
abbrev pub told : Option (List (Option PowerDay)) → ℕ → Option PowerDay
told none d = none
told (some week) d = entry week d

entry_of_days : (f : ℕ → Option PowerDay) (d : ℕ) → d < 7 → entry (map f week_days) d ≡ f d
entry_of_days f zero h = refl
entry_of_days f (suc zero) h = refl
entry_of_days f (suc (suc zero)) h = refl
entry_of_days f (suc (suc (suc zero))) h = refl
entry_of_days f (suc (suc (suc (suc zero)))) h = refl
entry_of_days f (suc (suc (suc (suc (suc zero))))) h = refl
entry_of_days f (suc (suc (suc (suc (suc (suc zero)))))) h = refl
entry_of_days f (suc (suc (suc (suc (suc (suc (suc d))))))) h = absurd (omega arith)

no_entry : (week : List (Option PowerDay)) (d : ℕ) → any is_some week ≡ false → entry week d ≡ none
no_entry [] d h = refl
no_entry (none ∷ ps) zero h = refl
no_entry (some p ∷ ps) zero h = cc
no_entry (none ∷ ps) (suc d) h = no_entry ps d h
no_entry (some p ∷ ps) (suc d) h = cc

told-effective_power :
    (rules : List PowerRule) (group : Option String) (d : ℕ)
    → d < 7
    → told (effective_power rules group) d ≡ power_day rules group d
unfolding effective_power
told-effective_power rules group d h =
    let week = map (power_day rules group) week_days in
    elim (Bool-cases (any is_some week)) [
      | inl used ↦ rw used (entry_of_days (power_day rules group) d h)
      | inr idle ↦ rw idle (sym (no_entry week d idle) ∙ entry_of_days (power_day rules group) d h)
    ]

module _ (xs ys : List PowerRule) (r : PowerRule) (d : ℕ) (x : AreExclusive (xs ++ r ∷ ys))
    (h : d < 7) where
  -- On a day that a schedule of its group covers, a workstation is told that schedule's times,
  -- wherever the schedule stands among the others, and whatever there is for every workstation.
  pub effective_power-own :
      (group : String)
      → has_text (some group) ≡ true
      → applies (some group) d r ≡ true
      → told (effective_power (xs ++ r ∷ ys) (some group)) d
        ≡ some (record { off = r.off; on = r.on })
  unfolding power_day
  effective_power-own group named e =
      told-effective_power (xs ++ r ∷ ys) (some group) d h
      ∙ ground (arith, find-applies xs ys r (some group) d x h e)

  -- On a day that no schedule of its group covers, it is told the times of the schedule for every
  -- workstation that covers the day.
  pub effective_power-everyone :
      (group : Option String)
      → own_rule (xs ++ r ∷ ys) group d ≡ none
      → applies none d r ≡ true
      → told (effective_power (xs ++ r ∷ ys) group) d ≡ some (record { off = r.off; on = r.on })
  unfolding power_day
  effective_power-everyone group own e =
      told-effective_power (xs ++ r ∷ ys) group d h ∙ rw (own, find-applies xs ys r none d x h e)
