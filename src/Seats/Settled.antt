-- ===== src/Seats/Settled.antt =====
-- A rebalance has nothing left to do after a rebalance.
use labkiosk.Shared.{
  ℕ, zero, suc, ◌<◌, ap, length-map, ◌-◌, ◌≡◌, refl, sym, ◌∙◌, min, Bool, List, [], ◌∷◌, String,
  length, filter, take, count, arith, sort, count_split, count_congr_mem, length-sort,
  length-filter,
}
use labkiosk.Seats.{
  Seating, Changes, EnrolledWorkstation, enrolled, enrolled_ids, is_licensed, is_waiting, ids,
  oldest_first, newest_first, licensed_by_age, waiting_by_age, plan_changes, rebalance_licences,
  prune, list_enrolled_workstations,
}
use labkiosk.Seats.Tables.{since_of_lem, is_listed-prune}
use labkiosk.Seats.Rebalance.{
  holds, after, changes, licensed_count, licensed_count_lem, enrolled_count,
  licensed_count-rebalance, enrolled_ids-rebalance,
}

abbrev nothing : Changes
nothing = record { unlicensed = []; relicensed = [] }

tokens-prune : (db : Seating) (tenant : String) → (prune db tenant).device_tokens ≡ db.device_tokens
unfolding prune
tokens-prune db tenant = refl

-- Pruning drops rows of workstations that are not enrolled, and so no one that counts.
licensed_count-prune :
    (db : Seating) (tenant : String)
    → licensed_count (prune db tenant) tenant ≡ licensed_count db tenant
licensed_count-prune db tenant =
    licensed_count_lem (prune db tenant) tenant
    ∙ ap (λ ts. count (holds (prune db tenant) tenant) (enrolled_ids ts tenant))
        (tokens-prune db tenant)
    ∙ count_congr_mem (holds (prune db tenant) tenant) (holds db tenant)
        (enrolled_ids db.device_tokens tenant)
        (λ c m. ground (
          arith,
          since_of_lem db.unlicensed_workstations tenant c,
          since_of_lem (prune db tenant).unlicensed_workstations tenant c,
          is_listed-prune db tenant c,
        ))
    ∙ sym (licensed_count_lem db tenant)

ids-take_empty : (n : ℕ) (ws : List EnrolledWorkstation) → length ws ≡ 0 → ids (take n ws) ≡ []
ids-take_empty zero ws h = refl
ids-take_empty (suc n) [] h = refl
ids-take_empty (suc n) (w ∷ ws) h = absurd (omega arith)

plan_changes_settled :
    (locale_le : String → String → Bool) (all : List EnrolledWorkstation) (limit : ℕ)
    → length (licensed_by_age locale_le all) ≡ min limit (length all)
    → plan_changes locale_le all limit ≡ nothing
unfolding plan_changes waiting_by_age licensed_by_age
plan_changes_settled locale_le all limit h =
    let waiting = sort (newest_first locale_le) (filter is_waiting all) in
    let held = sort (oldest_first locale_le) (filter is_licensed all) in
    let none_waits : length held < limit → length waiting ≡ 0 = λ under. omega (
      arith,
      count_split is_licensed all,
      length-sort (oldest_first locale_le) (filter is_licensed all),
      length-filter is_licensed all,
      length-sort (newest_first locale_le) (filter is_waiting all),
      length-filter is_waiting all,
    ) in
    ground (arith, none_waits, ids-take_empty (limit - length held) waiting)

length-held :
    (locale_le : String → String → Bool) (db : Seating) (tenant : String)
    → length (licensed_by_age locale_le (list_enrolled_workstations db tenant))
      ≡ licensed_count db tenant
unfolding licensed_by_age licensed_count
length-held locale_le db tenant =
    length-sort (oldest_first locale_le) (filter is_licensed (list_enrolled_workstations db tenant))
    ∙ length-filter is_licensed (list_enrolled_workstations db tenant)

length-all :
    (db : Seating) (tenant : String)
    → length (list_enrolled_workstations (prune db tenant) tenant) ≡ enrolled_count db tenant
unfolding list_enrolled_workstations enrolled_count prune
length-all db tenant =
    length-map (enrolled (prune db tenant) tenant) (enrolled_ids db.device_tokens tenant)

enrolled_count-rebalance :
    (locale_le : String → String → Bool) (db : Seating) (tenant : String) (limit now : ℕ)
    → enrolled_count (after locale_le db tenant limit now) tenant ≡ enrolled_count db tenant
unfolding enrolled_count
enrolled_count-rebalance locale_le db tenant limit now =
    ap length (enrolled_ids-rebalance locale_le db tenant limit now)

module _ (locale_le : String → String → Bool) (db : Seating) (tenant : String) (limit now : ℕ) where
  -- Where as many are licensed as the limit covers, nobody loses a licence and nobody gets one.
  settled :
      licensed_count db tenant ≡ min limit (enrolled_count db tenant)
      → changes locale_le db tenant limit now ≡ nothing
  unfolding rebalance_licences
  settled h =
      let all = list_enrolled_workstations (prune db tenant) tenant in
      plan_changes_settled locale_le all limit (
        omega (
          arith,
          length-held locale_le (prune db tenant) tenant,
          licensed_count-prune db tenant,
          length-all db tenant,
        ))

-- A second rebalance, at any later time, takes no licence and gives none.
pub rebalance_again :
    (locale_le : String → String → Bool) (db : Seating) (tenant : String) (limit now later : ℕ)
    → changes locale_le (after locale_le db tenant limit now) tenant limit later ≡ nothing
rebalance_again locale_le db tenant limit now later =
    settled locale_le (after locale_le db tenant limit now) tenant limit later (
      licensed_count-rebalance locale_le db tenant limit now
      ∙ ap (λ n. min limit n) (sym (enrolled_count-rebalance locale_le db tenant limit now)))
