-- ===== src/Seats/Rebalance.antt =====
-- `rebalanceLicences`: the licensed workstations fit the limit, and nothing else moves.
use labkiosk.Shared.{
  ℕ, ◌-◌, ◌≡◌, refl, ◌∙◌, ap, min, Bool, true, false, not, ◌&&◌, ◌||◌, List, [], map, String, mem,
  length, filter, take, count, sort, arith, IsWithin, IsDistinct, ltb, Bool-cases, inl, inr, ◌==◌,
  string_eq, length-take, length-map, length-filter, length-sort, count-sort, count-map,
  count-filter, count-take-le, count_split, count_without, count_with, count_congr,
  distinct-IsDistinct, ltb→lt, ltb_false→le, ◌<◌, count-le-length,
}
use labkiosk.Seats.{
  Seating, EnrolledWorkstation, Changes, enrolled, enrolled_ids, list_enrolled_workstations,
  is_licensed, is_waiting, ids, oldest_first, newest_first, licensed_by_age, waiting_by_age,
  plan_changes, rebalance_licences, prune, insert_all, is_live,
}
use labkiosk.Seats.Tables.{
  since_of_lem, is_listed-insert_all, is_listed-delete_all, is_listed-prune, rows_of_others,
  rows_of_others-insert_all, rows_of_others-delete_all, rows_of_others-prune,
}

-- How many enrolled workstations of the organization are licensed.
unfoldable pub licensed_count : Seating → String → ℕ
licensed_count db tenant = count is_licensed (list_enrolled_workstations db tenant)

unfoldable pub enrolled_count : Seating → String → ℕ
enrolled_count db tenant = length (enrolled_ids db.device_tokens tenant)

abbrev pub holds : Seating → String → String → Bool
holds db tenant client = (enrolled db tenant client).licensed

pub enrolled_ids-IsDistinct :
    (db : Seating) (tenant : String) → IsDistinct (enrolled_ids db.device_tokens tenant)
unfolding enrolled_ids
enrolled_ids-IsDistinct db tenant =
    distinct-IsDistinct (map (λ r. r.client_id) (filter (is_live tenant) db.device_tokens))

pub licensed_count_lem :
    (db : Seating) (tenant : String)
    → licensed_count db tenant ≡ count (holds db tenant) (enrolled_ids db.device_tokens tenant)
unfolding licensed_count list_enrolled_workstations
licensed_count_lem db tenant =
    count-map is_licensed (enrolled db tenant) (enrolled_ids db.device_tokens tenant)

module _ (before : EnrolledWorkstation → EnrolledWorkstation → Bool)
    (p : EnrolledWorkstation → Bool) (db : Seating) (tenant : String) where
  -- The workstations that pass a test, in an order: those of the enrolled ids, as often.
  pub occurrences-chosen :
      (n : ℕ) (cs : List String)
      → IsWithin
          (ids (take n (sort before (filter p (map (enrolled db tenant) cs)))))
          (filter (λ c. p (enrolled db tenant c)) cs)
  occurrences-chosen n cs c =
      let chosen = filter p (map (enrolled db tenant) cs) in
      let named = λ (w : EnrolledWorkstation). w.client_id == c in
      omega (
        arith,
        count-map (λ x. x == c) (λ (w : EnrolledWorkstation). w.client_id)
            (take n (sort before chosen)),
        count-take-le named n (sort before chosen),
        count-sort before named chosen,
        count-filter named p (map (enrolled db tenant) cs),
        count-map (λ w. p w && named w) (enrolled db tenant) cs,
        count-filter (λ x. x == c) (λ x. p (enrolled db tenant x)) cs,
      )

  pub length-chosen :
      (cs : List String)
      → length (sort before (filter p (map (enrolled db tenant) cs)))
        ≡ count (λ c. p (enrolled db tenant c)) cs
  length-chosen cs = omega (
    arith,
    length-sort before (filter p (map (enrolled db tenant) cs)),
    length-filter p (map (enrolled db tenant) cs),
    count-map p (enrolled db tenant) cs,
  )

-- What a workstation has after changes were applied to what it had.
abbrev pub after_changes : Changes → Bool → String → Bool
after_changes r held client = (held && not (mem client r.unlicensed)) || mem client r.relicensed

module _ (locale_le : String → String → Bool) (db : Seating) (tenant : String) (limit : ℕ) where
  abbrev oldest : List String → List EnrolledWorkstation
  oldest cs = sort (oldest_first locale_le) (filter is_licensed (map (enrolled db tenant) cs))

  abbrev newest : List String → List EnrolledWorkstation
  newest cs = sort (newest_first locale_le) (filter is_waiting (map (enrolled db tenant) cs))

  module _ (cs : List String) (d : IsDistinct cs) where
    -- Over the limit: as many lose their licence as are too many.
    fit_over :
        limit < length (oldest cs)
        → count
            (λ c.
              after_changes
                (record {
                  unlicensed = ids (take (length (oldest cs) - limit) (oldest cs));
                  relicensed = [];
                })
                (holds db tenant c)
                c)
            cs
          ≡ min limit (length cs)
    fit_over h =
        let n = length (oldest cs) - limit in
        let gone = ids (take n (oldest cs)) in
        omega (
          arith,
          count_congr (λ c. (holds db tenant c && not (mem c gone)) || false)
              (λ c. holds db tenant c && not (mem c gone)) cs (λ c. ground arith),
          count_without (holds db tenant) gone cs d
              (occurrences-chosen (oldest_first locale_le) is_licensed db tenant n cs),
          length-map (λ (w : EnrolledWorkstation). w.client_id) (take n (oldest cs)),
          length-take n (oldest cs),
          length-chosen (oldest_first locale_le) is_licensed db tenant cs,
          count-le-length (holds db tenant) cs,
        )

    -- Under the limit: those that wait get what is free.
    fit_under :
        length (oldest cs) < limit
        → count
            (λ c.
              after_changes
                (record {
                  unlicensed = [];
                  relicensed = ids (take (limit - length (oldest cs)) (newest cs));
                })
                (holds db tenant c)
                c)
            cs
          ≡ min limit (length cs)
    fit_under h =
        let n = limit - length (oldest cs) in
        let back = ids (take n (newest cs)) in
        omega (
          arith,
          count_congr (λ c. (holds db tenant c && true) || mem c back)
              (λ c. holds db tenant c || mem c back) cs (λ c. ground arith),
          count_with (holds db tenant) back cs d
              (occurrences-chosen (newest_first locale_le) is_waiting db tenant n cs),
          length-map (λ (w : EnrolledWorkstation). w.client_id) (take n (newest cs)),
          length-take n (newest cs),
          length-chosen (oldest_first locale_le) is_licensed db tenant cs,
          length-chosen (newest_first locale_le) is_waiting db tenant cs,
          count_split (holds db tenant) cs,
        )

    fit_exact :
        length (oldest cs) ≡ limit
        → count
            (λ c. after_changes (record { unlicensed = []; relicensed = [] }) (holds db tenant c) c)
            cs
          ≡ min limit (length cs)
    fit_exact h = omega (
      arith,
      count_congr (λ c. (holds db tenant c && true) || false) (holds db tenant) cs
          (λ c. ground arith),
      length-chosen (oldest_first locale_le) is_licensed db tenant cs,
      count-le-length (holds db tenant) cs,
    )

    plan_changes_fit :
        count
          (λ c.
            after_changes
              (plan_changes locale_le (map (enrolled db tenant) cs) limit)
              (holds db tenant c)
              c)
          cs
        ≡ min limit (length cs)
    unfolding plan_changes licensed_by_age waiting_by_age
    plan_changes_fit = elim (Bool-cases (ltb limit (length (oldest cs)))) [
      | inl over ↦ rw over (fit_over (ltb→lt _ _ over))
      | inr fits ↦ elim (Bool-cases (ltb (length (oldest cs)) limit)) [
        | inl under ↦ rw (fits, under) (fit_under (ltb→lt _ _ under))
        | inr exact ↦
            rw (fits, exact)
              (fit_exact (omega (arith, ltb_false→le _ _ fits, ltb_false→le _ _ exact)))
      ]
    ]

module _ (locale_le : String → String → Bool) (db : Seating) (tenant : String) (limit now : ℕ) where
  abbrev pub after : Seating
  after = (rebalance_licences locale_le db tenant limit now).0

  abbrev pub changes : Changes
  changes = (rebalance_licences locale_le db tenant limit now).1

  pub holds-after_pruned :
      (client : String)
      → holds after tenant client
        ≡ after_changes changes (holds (prune db tenant) tenant client) client
  unfolding rebalance_licences
  holds-after_pruned client =
      let us = (prune db tenant).unlicensed_workstations in
      let r = plan_changes locale_le (list_enrolled_workstations (prune db tenant) tenant) limit in
      ground (
        arith,
        since_of_lem us tenant client,
        since_of_lem after.unlicensed_workstations tenant client,
        is_listed-insert_all us tenant client now r.unlicensed,
        is_listed-delete_all (insert_all tenant now us r.unlicensed) tenant client r.relicensed,
      )

  -- Of an enrolled workstation, the tables say afterwards what they said before, but for those that
  -- the result names: the ones that lost their licence and the ones that got one back.
  pub holds-rebalance :
      (client : String)
      → mem client (enrolled_ids db.device_tokens tenant) ≡ true
      → holds after tenant client ≡ after_changes changes (holds db tenant client) client
  holds-rebalance client m = ground (
    arith,
    holds-after_pruned client,
    since_of_lem db.unlicensed_workstations tenant client,
    since_of_lem (prune db tenant).unlicensed_workstations tenant client,
    is_listed-prune db tenant client,
  )

  -- Rebalancing enrols and removes nobody.
  pub enrolled_ids-rebalance :
      enrolled_ids after.device_tokens tenant ≡ enrolled_ids db.device_tokens tenant
  unfolding rebalance_licences prune
  enrolled_ids-rebalance = refl

  changes_fit :
      count
        (λ c. after_changes changes (holds (prune db tenant) tenant c) c)
        (enrolled_ids db.device_tokens tenant)
      ≡ min limit (length (enrolled_ids db.device_tokens tenant))
  unfolding rebalance_licences list_enrolled_workstations prune
  changes_fit =
      plan_changes_fit locale_le (prune db tenant) tenant limit
        (enrolled_ids db.device_tokens tenant) (enrolled_ids-IsDistinct db tenant)

  -- After a rebalance as many enrolled workstations are licensed as the limit covers: the limit, or
  -- all of them if they are fewer, whatever the tables held before.
  pub licensed_count-rebalance : licensed_count after tenant ≡ min limit (enrolled_count db tenant)
  unfolding enrolled_count
  licensed_count-rebalance =
      licensed_count_lem after tenant
      ∙ ap (count (holds after tenant)) enrolled_ids-rebalance
      ∙ count_congr (holds after tenant)
          (λ c. after_changes changes (holds (prune db tenant) tenant c) c)
          (enrolled_ids db.device_tokens tenant) holds-after_pruned
      ∙ changes_fit

  -- A rebalance leaves the rows of every other organization as they are.
  pub rebalance-rows_of_others :
      rows_of_others tenant after.unlicensed_workstations
      ≡ rows_of_others tenant db.unlicensed_workstations
  unfolding rebalance_licences
  rebalance-rows_of_others =
      let us = (prune db tenant).unlicensed_workstations in
      let r = plan_changes locale_le (list_enrolled_workstations (prune db tenant) tenant) limit in
      rows_of_others-delete_all (insert_all tenant now us r.unlicensed) tenant r.relicensed
      ∙ rows_of_others-insert_all us tenant now r.unlicensed
      ∙ rows_of_others-prune db tenant
