-- ===== src/Seats/Move.antt =====
-- `moveLicenceTo`: a licence, or a free place, goes to one workstation.
use labkiosk.Shared.{
  ℕ, ◌+◌, ◌≤◌, ◌<◌, ◌≡◌, refl, Bool, true, false, not, ◌&&◌, ◌||◌, Option, none, some, List, [],
  ◌∷◌, map, String, ◌==◌, string_eq, mem, length, filter, find, arith, eq_iff, leb, count_with,
  count_without, count_congr, IsWithin, occurrences-filter, occurrences_of_mem, if◌then◌else◌,
  Bool-cases, inl, inr,
}
use labkiosk.Seats.{
  Seating, EnrolledWorkstation, enrolled, enrolled_ids, licensed_by_age, list_enrolled_workstations,
  insert_unlicensed, delete_unlicensed, give_licence, move_licence_to, moved, refused, not_enrolled,
  already_licensed,
}
use labkiosk.Seats.Tables.{since_of_lem, is_listed-insert, is_listed-delete}
use labkiosk.Seats.Rebalance.{holds, licensed_count, licensed_count_lem, enrolled_ids-IsDistinct}

singleton-IsWithin :
    (p : String → Bool) (x : String) (ys : List String)
    → mem x ys ≡ true
    → p x ≡ true
    → IsWithin (x ∷ []) (filter p ys)
singleton-IsWithin p x ys m h c =
    ground (arith, occurrences-filter p c ys, occurrences_of_mem x ys, eq_iff x c)

find-enrolled :
    (db : Seating) (tenant client : String) (cs : List String)
    → find (λ w. w.client_id == client) (map (enrolled db tenant) cs)
      ≡ (if mem client cs then some (enrolled db tenant client) else none)
find-enrolled db tenant client [] = refl
find-enrolled db tenant client (c ∷ cs) =
    ground (arith, find-enrolled db tenant client cs, eq_iff c client)

module _ (db : Seating) (tenant client : String) where
  -- The tables once the row of `client` is deleted.
  abbrev pub freed : Seating
  freed = record db {
    unlicensed_workstations = delete_unlicensed tenant db.unlicensed_workstations client;
  }

  pub holds-freed : (c : String) → holds freed tenant c ≡ (holds db tenant c || mem c (client ∷ []))
  holds-freed c = ground (
    arith,
    since_of_lem db.unlicensed_workstations tenant c,
    since_of_lem freed.unlicensed_workstations tenant c,
    is_listed-delete db.unlicensed_workstations tenant client c,
  )

  module _ (enrols : mem client (enrolled_ids db.device_tokens tenant) ≡ true)
      (without : holds db tenant client ≡ false) where
    pub licensed_count-freed : licensed_count freed tenant ≡ licensed_count db tenant + 1
    licensed_count-freed =
        let cs = enrolled_ids db.device_tokens tenant in
        omega (
          arith,
          licensed_count_lem freed tenant,
          licensed_count_lem db tenant,
          count_congr (holds freed tenant) (λ c. holds db tenant c || mem c (client ∷ [])) cs
              holds-freed,
          count_with (holds db tenant) (client ∷ []) cs (enrolled_ids-IsDistinct db tenant)
              (singleton-IsWithin (λ c. not (holds db tenant c)) client cs enrols (cc without)),
        )

-- The tables once a row of `loser` is inserted.
abbrev pub with_loser : Seating → String → ℕ → String → Seating
with_loser db tenant now loser = record db {
  unlicensed_workstations = insert_unlicensed tenant now db.unlicensed_workstations loser;
}

module _ (db : Seating) (tenant : String) (now : ℕ) (loser : String) where
  pub holds-with_loser :
      (c : String)
      → holds (with_loser db tenant now loser) tenant c
        ≡ (holds db tenant c && not (mem c (loser ∷ [])))
  holds-with_loser c = ground (
    arith,
    since_of_lem db.unlicensed_workstations tenant c,
    since_of_lem (with_loser db tenant now loser).unlicensed_workstations tenant c,
    is_listed-insert db.unlicensed_workstations tenant loser c now,
  )

  pub licensed_count-with_loser :
      mem loser (enrolled_ids db.device_tokens tenant) ≡ true
      → holds db tenant loser ≡ true
      → licensed_count (with_loser db tenant now loser) tenant + 1 ≡ licensed_count db tenant
  licensed_count-with_loser m h =
      let cs = enrolled_ids db.device_tokens tenant in
      omega (
        arith,
        licensed_count_lem (with_loser db tenant now loser) tenant,
        licensed_count_lem db tenant,
        count_congr (holds (with_loser db tenant now loser) tenant)
            (λ c. holds db tenant c && not (mem c (loser ∷ []))) cs holds-with_loser,
        count_without (holds db tenant) (loser ∷ []) cs (enrolled_ids-IsDistinct db tenant)
            (singleton-IsWithin (holds db tenant) loser cs m h),
      )

module _ (locale_le : String → String → Bool) (db : Seating) (tenant client : String)
    (limit now : ℕ) where
  -- The licence holders, the least recently seen first.
  abbrev pub holders : List EnrolledWorkstation
  holders = licensed_by_age locale_le (list_enrolled_workstations db tenant)

  -- What `moveLicenceTo` does, by what the tables say of the workstation.
  pub move_licence_to_lem : move_licence_to locale_le db tenant client limit now ≡ (
      if mem client (enrolled_ids db.device_tokens tenant)
      then (if holds db tenant client
          then (db, refused already_licensed)
          else give_licence db tenant client holders limit now)
      else (db, refused not_enrolled))
  unfolding move_licence_to list_enrolled_workstations
  move_licence_to_lem =
      ground (arith, find-enrolled db tenant client (enrolled_ids db.device_tokens tenant))

  -- What a move that succeeds has done: taken a free place, or the licence of the first holder.
  pub data Outcome (hs : List EnrolledWorkstation) (db' : Seating) (displaced : Option String)
      : Type 0 where
    free_place :
        length hs < limit
        → displaced ≡ none
        → db' ≡ freed db tenant client
        → Outcome hs db' displaced
    swapped :
        (w : EnrolledWorkstation) (ws : List EnrolledWorkstation)
        → limit ≤ length hs
        → hs ≡ w ∷ ws
        → displaced ≡ some w.client_id
        → db' ≡ with_loser (freed db tenant client) tenant now w.client_id
        → Outcome hs db' displaced

  give_licence_lem :
      (hs : List EnrolledWorkstation) (db' : Seating) (displaced : Option String)
      → give_licence db tenant client hs limit now ≡ (db', moved displaced)
      → Outcome hs db' displaced
  unfolding give_licence
  give_licence_lem [] db' displaced e = elim (Bool-cases (leb limit 0)) [
    | inl full ↦ ground arith
    | inr room ↦ free_place (ground arith) (ground arith) (ground arith)
  ]
  give_licence_lem (w ∷ ws) db' displaced e = elim (Bool-cases (leb limit (length (w ∷ ws)))) [
    | inl full ↦ swapped w ws (ground arith) refl (ground arith) (ground arith)
    | inr room ↦ free_place (ground arith) (ground arith) (ground arith)
  ]

  module _ (db' : Seating) (displaced : Option String)
      (ok : move_licence_to locale_le db tenant client limit now ≡ (db', moved displaced)) where
    pub move_target :
        (mem client (enrolled_ids db.device_tokens tenant) ≡ true)
        × (holds db tenant client ≡ false)
        × (give_licence db tenant client holders limit now ≡ (db', moved displaced))
    move_target = ground (arith, move_licence_to_lem)

    pub move-Outcome : Outcome holders db' displaced
    move-Outcome = give_licence_lem holders db' displaced move_target.2
