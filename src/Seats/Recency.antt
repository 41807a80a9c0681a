-- ===== src/Seats/Recency.antt =====
-- `rebalanceLicences` takes licences from the workstations seen least recently, and gives free ones
-- to those seen most recently.
use labkiosk.Shared.{
  ℕ, ◌-◌, ◌≤◌, ◌≡◌, ◌⊎◌, filter, Bool, true, false, List, [], String, mem, length, take, arith,
}
use labkiosk.Seats.{
  Seating, Changes, EnrolledWorkstation, enrolled_ids, is_licensed, is_waiting, ids, oldest_first,
  newest_first, last_seen_of, plan_changes, licensed_by_age, waiting_by_age, rebalance_licences,
  prune, list_enrolled_workstations,
}
use labkiosk.Seats.Order.{
  SeenBefore, SeenAfter, IsDescribed, sort-oldest_first, sort-newest_first, front_before_rest,
}
use labkiosk.Seats.Rebalance.{holds, after, changes, holds-after_pruned}

ids-take_none : (n : ℕ) (ws : List EnrolledWorkstation) → n ≡ 0 → ids (take n ws) ≡ []
ids-take_none n ws h = rw h

pub seen_le :
    (db : Seating) (tenant : String) (w v : EnrolledWorkstation) (u k : String)
    → w.client_id ≡ u
    → v.client_id ≡ k
    → w.last_seen ≤ v.last_seen
    → IsDescribed db tenant w
    → IsDescribed db tenant v
    → last_seen_of db.client_devices tenant u ≤ last_seen_of db.client_devices tenant k
seen_le db tenant w v u k at_u at_k h dw dv = ground arith

-- Both lists of the result, as fronts of the orders: an empty front where nothing is to be done.
module _ (locale_le : String → String → Bool) (all : List EnrolledWorkstation) (limit : ℕ) where
  abbrev held : List EnrolledWorkstation
  held = licensed_by_age locale_le all

  abbrev open_to : List EnrolledWorkstation
  open_to = waiting_by_age locale_le all

  plan_changes_lem :
      ((plan_changes locale_le all limit).unlicensed ≡ ids (take (length held - limit) held))
      × ((plan_changes locale_le all limit).relicensed ≡ ids (take (limit - length held) open_to))
  unfolding plan_changes
  plan_changes_lem =
      ground (
        arith,
        ids-take_none (length held - limit) held,
        ids-take_none (limit - length held) open_to,
      )

  -- Licences are taken or given, never both.
  one_sided :
      ((plan_changes locale_le all limit).unlicensed ≡ [])
      ⊎ ((plan_changes locale_le all limit).relicensed ≡ [])
  unfolding plan_changes
  one_sided = ground arith

module _ (locale_le : String → String → Bool) (db : Seating) (tenant : String) (limit now : ℕ) where
  abbrev result : Changes
  result = changes locale_le db tenant limit now

  changes-one_sided : (result.unlicensed ≡ []) ⊎ (result.relicensed ≡ [])
  unfolding rebalance_licences
  changes-one_sided =
      one_sided locale_le (list_enrolled_workstations (prune db tenant) tenant) limit

  -- What was licensed before, of a rebalance that takes licences, if it is licensed afterwards.
  kept :
      (u k : String)
      → mem u result.unlicensed ≡ true
      → holds (after locale_le db tenant limit now) tenant k ≡ true
      → (holds (prune db tenant) tenant k ≡ true) × (mem k result.unlicensed ≡ false)
  kept u k mu hk =
      ground (arith, changes-one_sided, holds-after_pruned locale_le db tenant limit now k)

  -- What was waiting before, of a rebalance that gives licences, if it waits afterwards.
  still_waiting :
      (u k : String)
      → mem u result.relicensed ≡ true
      → holds (after locale_le db tenant limit now) tenant k ≡ false
      → (holds (prune db tenant) tenant k ≡ false) × (mem k result.relicensed ≡ false)
  still_waiting u k mu hk =
      ground (arith, changes-one_sided, holds-after_pruned locale_le db tenant limit now k)

  -- Of the enrolled workstations, those that a rebalance takes the licence from were seen no later
  -- than every one that is licensed afterwards.
  pub rebalance_takes_oldest :
      (u k : String)
      → mem u result.unlicensed ≡ true
      → mem k (enrolled_ids db.device_tokens tenant) ≡ true
      → holds (after locale_le db tenant limit now) tenant k ≡ true
      → last_seen_of db.client_devices tenant u ≤ last_seen_of db.client_devices tenant k
  unfolding rebalance_licences list_enrolled_workstations licensed_by_age prune
  rebalance_takes_oldest u k mu mk hk =
      let all = list_enrolled_workstations (prune db tenant) tenant in
      let n = length (licensed_by_age locale_le all) - limit in
      let shape = (plan_changes_lem locale_le all limit).0 in
      let (held_k, out_k) = kept u k mu hk in
      let (w, v, at_u, at_k, ahead, dw, dv) =
        front_before_rest (prune db tenant) tenant (enrolled_ids db.device_tokens tenant)
          (oldest_first locale_le) is_licensed SeenBefore n u k
          (sort-oldest_first locale_le (filter is_licensed all)) (rw shape at mu) mk held_k
          (rw shape at out_k) in
      seen_le (prune db tenant) tenant w v u k at_u at_k ahead dw dv

  -- Of the enrolled workstations, those that a rebalance gives a licence to were seen no earlier
  -- than every one that goes without afterwards.
  pub rebalance_gives_newest :
      (u k : String)
      → mem u result.relicensed ≡ true
      → mem k (enrolled_ids db.device_tokens tenant) ≡ true
      → holds (after locale_le db tenant limit now) tenant k ≡ false
      → last_seen_of db.client_devices tenant k ≤ last_seen_of db.client_devices tenant u
  unfolding rebalance_licences list_enrolled_workstations licensed_by_age waiting_by_age prune
  rebalance_gives_newest u k mu mk hk =
      let all = list_enrolled_workstations (prune db tenant) tenant in
      let n = limit - length (licensed_by_age locale_le all) in
      let shape = (plan_changes_lem locale_le all limit).1 in
      let (held_k, out_k) = still_waiting u k mu hk in
      let (w, v, at_u, at_k, ahead, dw, dv) =
        front_before_rest (prune db tenant) tenant (enrolled_ids db.device_tokens tenant)
          (newest_first locale_le) is_waiting SeenAfter n u k
          (sort-newest_first locale_le (filter is_waiting all)) (rw shape at mu) mk (cc held_k)
          (rw shape at out_k) in
      seen_le (prune db tenant) tenant v w k u at_k at_u ahead dv dw
