-- ===== src/Seats/Transfer.antt =====
-- What a successful `moveLicenceTo` and a refused one leave behind.
use labkiosk.Shared.{
  ℕ, ◌+◌, ◌≤◌, ◌≡◌, ◌∙◌, Bool, true, false, ◌&&◌, Option, none, some, List, [], ◌∷◌, String, ◌==◌,
  string_eq, nat_eq, mem, take, length, filter, arith, ap, eq_iff, leb, if◌then◌else◌, Bool-cases,
  inl, inr, length-sort, length-filter,
}
use labkiosk.Seats.{
  Seating, EnrolledWorkstation, enrolled_ids, is_licensed, ids, oldest_first, last_seen_of,
  licensed_by_age, list_enrolled_workstations, give_licence, move_licence_to, MoveResult, MoveError,
  moved, refused, not_enrolled, already_licensed, no_licence,
}
use labkiosk.Seats.Tables.{rows_of_others, rows_of_others-insert, rows_of_others-delete}
use labkiosk.Seats.Order.{
  SeenBefore, sort-oldest_first, front_before_rest, mem-ids-sort, mem-ids-chosen,
}
use labkiosk.Seats.Rebalance.{holds, licensed_count}
use labkiosk.Seats.Recency.{seen_le}
use labkiosk.Seats.Move.{
  freed, holders, Outcome, free_place, swapped, move_target, move-Outcome, move_licence_to_lem,
  licensed_count-freed, licensed_count-with_loser, holds-freed, holds-with_loser,
}

-- The refusal of a move, if any, read off the tables.
abbrev pub refusal_of : MoveResult → Option MoveError
refusal_of (moved d) = none
refusal_of (refused e) = some e

module _ (locale_le : String → String → Bool) (db : Seating) (tenant client : String)
    (limit now : ℕ) where
  abbrev hs : List EnrolledWorkstation
  hs = holders locale_le db tenant client limit now

  length-holders : length hs ≡ licensed_count db tenant
  unfolding licensed_by_age licensed_count
  length-holders =
      let all = list_enrolled_workstations db tenant in
      length-sort (oldest_first locale_le) (filter is_licensed all) ∙ length-filter is_licensed all

  -- A licence holder is enrolled and licensed.
  holder :
      (c : String)
      → mem c (ids hs) ≡ true
      → (mem c (enrolled_ids db.device_tokens tenant) ≡ true) × (holds db tenant c ≡ true)
  unfolding licensed_by_age list_enrolled_workstations
  holder c m = mem-ids-chosen db tenant c is_licensed (enrolled_ids db.device_tokens tenant) (
      ground (
        arith,
        mem-ids-sort (oldest_first locale_le) c
            (filter is_licensed (list_enrolled_workstations db tenant)),
      ))

  abbrev free_db : Seating
  free_db = freed db tenant client

  -- The first licence holder.
  first_holder :
      (w : EnrolledWorkstation) (ws : List EnrolledWorkstation)
      → hs ≡ w ∷ ws
      → (mem w.client_id (enrolled_ids db.device_tokens tenant) ≡ true)
        × (holds db tenant w.client_id ≡ true)
  first_holder w ws e =
      holder w.client_id (ground (arith, ap ids e, eq_iff w.client_id w.client_id))

  CountsAfter : Seating → Type 0
  CountsAfter db' =
      (holds db' tenant client ≡ true)
      × (licensed_count db' tenant ≡ (
          if leb limit (licensed_count db tenant)
          then licensed_count db tenant
          else licensed_count db tenant + 1))

  Outcome-counts :
      (db' : Seating) (displaced : Option String)
      → mem client (enrolled_ids db.device_tokens tenant) ≡ true
      → holds db tenant client ≡ false
      → Outcome locale_le db tenant client limit now hs db' displaced
      → CountsAfter db'
  unfolding CountsAfter
  Outcome-counts db' displaced enrols without (free_place room e1 e2) = ground (
    arith,
    e2,
    holds-freed db tenant client client,
    eq_iff client client,
    licensed_count-freed db tenant client enrols without,
    length-holders,
  )
  Outcome-counts db' displaced enrols without (swapped w ws full shape e1 e2) =
      let (enrols_w, holds_w) = first_holder w ws shape in
      let still : holds free_db tenant w.client_id ≡ true =
        ground (arith, holds-freed db tenant client w.client_id) in
      ground (
        arith,
        e2,
        holds-freed db tenant client client,
        holds-with_loser free_db tenant now w.client_id client,
        eq_iff client client,
        eq_iff w.client_id client,
        licensed_count-freed db tenant client enrols without,
        licensed_count-with_loser free_db tenant now w.client_id enrols_w still,
        length-holders,
      )

  -- After a move that succeeds, the workstation is licensed, and so are as many as before if the
  -- limit was reached, and one more if a place was free.
  pub move_licence_to_counts :
      (db' : Seating) (displaced : Option String)
      → move_licence_to locale_le db tenant client limit now ≡ (db', moved displaced)
      → (holds db' tenant client ≡ true)
        × (licensed_count db' tenant ≡ (
            if leb limit (licensed_count db tenant)
            then licensed_count db tenant
            else licensed_count db tenant + 1))
  unfolding CountsAfter
  move_licence_to_counts db' displaced ok =
      let (enrols, without, _) =
        move_target locale_le db tenant client limit now db' displaced ok in
      Outcome-counts db' displaced enrols without
        (move-Outcome locale_le db tenant client limit now db' displaced ok)

  oldest_holder :
      (w : EnrolledWorkstation) (ws : List EnrolledWorkstation) (k : String)
      → hs ≡ w ∷ ws
      → mem k (enrolled_ids db.device_tokens tenant) ≡ true
      → holds db tenant k ≡ true
      → last_seen_of db.client_devices tenant w.client_id ≤ last_seen_of db.client_devices tenant k
  unfolding licensed_by_age list_enrolled_workstations
  oldest_holder w ws k shape mk hk = elim (Bool-cases (w.client_id == k)) [
    | inl same ↦ ground (arith, eq_iff w.client_id k)
    | inr other ↦
        let (v, x, at_w, at_k, ahead, dv, dx) =
          front_before_rest db tenant (enrolled_ids db.device_tokens tenant)
            (oldest_first locale_le) is_licensed SeenBefore 1 w.client_id k
            (sort-oldest_first locale_le
              (filter is_licensed (list_enrolled_workstations db tenant)))
            (ground (arith, ap (λ l. ids (take 1 l)) shape, eq_iff w.client_id w.client_id)) mk hk
            (ground (arith, ap (λ l. ids (take 1 l)) shape)) in
        seen_le db tenant v x w.client_id k at_w at_k ahead dv dx
  ]

  Outcome-displaces :
      (db' : Seating) (u : String)
      → Outcome locale_le db tenant client limit now hs db' (some u)
      → (limit ≤ licensed_count db tenant)
        × (holds db tenant u ≡ true)
        × ((k : String)
            → mem k (enrolled_ids db.device_tokens tenant) ≡ true
            → holds db tenant k ≡ true
            → last_seen_of db.client_devices tenant u ≤ last_seen_of db.client_devices tenant k)
  Outcome-displaces db' u (free_place room e1 e2) = cc
  Outcome-displaces db' u (swapped w ws full shape e1 e2) = (
    ground (arith, length-holders),
    ground (arith, first_holder w ws shape),
    λ k mk hk. ground (arith, oldest_holder w ws k shape mk hk),
  )

  give_licence_refusals :
      (ws : List EnrolledWorkstation)
      → refusal_of (give_licence db tenant client ws limit now).1
        ≡ (if leb limit (length ws) && length ws == 0 then some no_licence else none)
  unfolding give_licence
  give_licence_refusals [] = ground arith
  give_licence_refusals (w ∷ ws) = ground arith

  give_licence-rows_of_others :
      (ws : List EnrolledWorkstation)
      → rows_of_others tenant (give_licence db tenant client ws limit now).0.unlicensed_workstations
        ≡ rows_of_others tenant db.unlicensed_workstations
  unfolding give_licence
  give_licence-rows_of_others [] =
      ground (arith, rows_of_others-delete db.unlicensed_workstations tenant client)
  give_licence-rows_of_others (w ∷ ws) = ground (
    arith,
    rows_of_others-delete db.unlicensed_workstations tenant client,
    rows_of_others-insert free_db.unlicensed_workstations tenant w.client_id now,
  )

  -- A workstation that a move displaces was licensed, gives its licence up only because the limit
  -- was reached, and was seen no later than every other enrolled workstation that was licensed.
  pub move_licence_to_displaces_oldest :
      (db' : Seating) (u : String)
      → move_licence_to locale_le db tenant client limit now ≡ (db', moved (some u))
      → (limit ≤ licensed_count db tenant)
        × (holds db tenant u ≡ true)
        × ((k : String)
            → mem k (enrolled_ids db.device_tokens tenant) ≡ true
            → holds db tenant k ≡ true
            → last_seen_of db.client_devices tenant u ≤ last_seen_of db.client_devices tenant k)
  move_licence_to_displaces_oldest db' u ok =
      Outcome-displaces db' u (move-Outcome locale_le db tenant client limit now db' (some u) ok)

  -- A move is refused exactly if the workstation is not enrolled, is licensed already, or there is
  -- neither a free place nor a licence to take.
  pub move_licence_to_refusals :
      refusal_of (move_licence_to locale_le db tenant client limit now).1 ≡ (
        if mem client (enrolled_ids db.device_tokens tenant)
        then (if holds db tenant client
            then some already_licensed
            else if leb limit (licensed_count db tenant) && licensed_count db tenant == 0
            then some no_licence
            else none)
        else some not_enrolled)
  move_licence_to_refusals = ground (
    arith,
    move_licence_to_lem locale_le db tenant client limit now,
    length-holders,
    give_licence_refusals hs,
  )

  -- A move, successful or not, leaves the rows of every other organization as they are.
  pub move_licence_to-rows_of_others :
      rows_of_others tenant
        (move_licence_to locale_le db tenant client limit now).0.unlicensed_workstations
      ≡ rows_of_others tenant db.unlicensed_workstations
  move_licence_to-rows_of_others = ground (
    arith,
    move_licence_to_lem locale_le db tenant client limit now,
    give_licence-rows_of_others hs,
  )
