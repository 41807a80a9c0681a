-- ===== src/Seats/Tests.antt =====
-- Three workstations of one organization and one of another, rebalanced and moved.
use labkiosk.Shared.{
  ℕ, ◌+◌, ◌≤◌, ◌≡◌, refl, Bool, true, false, none, some, List, [], ◌∷◌, String, mem, units, leb,
  if◌then◌else◌, nat_eq,
}
use labkiosk.Db.{DeviceRow}
use labkiosk.Seats.{
  Seating, TokenRow, UnlicensedRow, enrolled_ids, last_seen_of, since_of,
  list_enrolled_workstations, rebalance_licences, prune, delete_all, delete_unlicensed,
  plan_changes, licensed_by_age, waiting_by_age, oldest_first, newest_first, insert_all,
  insert_unlicensed, move_licence_to, moved, already_licensed,
}
use labkiosk.Seats.Rebalance.{
  holds, after, changes, after_changes, licensed_count, enrolled_count, holds-rebalance,
  licensed_count-rebalance,
}
use labkiosk.Seats.Recency.{rebalance_takes_oldest, rebalance_gives_newest}
use labkiosk.Seats.Settled.{rebalance_again}
use labkiosk.Seats.Transfer.{
  move_licence_to_counts, move_licence_to_displaces_oldest, move_licence_to_refusals, refusal_of,
}

-- An order of texts by their first units.
first_le : List ℕ → List ℕ → Bool
first_le [] bs = true
first_le (a ∷ as') [] = false
first_le (a ∷ as') (b ∷ bs) = leb a b

abbrev text_le : String → String → Bool
unfolding first_le units
text_le a b = first_le (units a) (units b)

abbrev token : String → String → TokenRow
token tenant client = record { tenant_id = tenant; client_id = client; revoked = false }

abbrev device : String → String → ℕ → DeviceRow
device tenant client seen = record {
  tenant_id = tenant;
  client_id = client;
  group_name = none;
  last_seen = seen;
  broadcast_url = none;
  broadcast_epoch = 0;
}

abbrev row : String → String → ℕ → UnlicensedRow
row tenant client since = record { tenant_id = tenant; client_id = client; since = since }

-- `school` has a, b and c, none unlicensed; `other` has x, unlicensed since 7.
abbrev lab : Seating
lab = record {
  device_tokens =
      token "school" "a" ∷ token "school" "b" ∷ token "school" "c" ∷ token "other" "x" ∷ [];
  client_devices = device "school" "a" 30 ∷ device "school" "b" 10 ∷ device "school" "c" 20 ∷ [];
  unlicensed_workstations = row "other" "x" 7 ∷ [];
}

-- With one place only, b and c lose theirs.
abbrev squeezed : Seating
squeezed = record lab {
  unlicensed_workstations = row "other" "x" 7 ∷ row "school" "b" 100 ∷ row "school" "c" 100 ∷ [];
}

squeeze :
    rebalance_licences text_le lab "school" 1 100
    ≡ (squeezed, record { unlicensed = "b" ∷ "c" ∷ []; relicensed = [] })
unfolding rebalance_licences prune delete_all plan_changes licensed_by_age
    list_enrolled_workstations enrolled_ids since_of oldest_first last_seen_of insert_all
    insert_unlicensed
squeeze = refl

licensed_count-rebalance_example : licensed_count squeezed "school" ≡ 1
unfolding rebalance_licences prune delete_all plan_changes licensed_by_age
    list_enrolled_workstations enrolled_ids since_of oldest_first last_seen_of insert_all
    insert_unlicensed enrolled_count
licensed_count-rebalance_example = licensed_count-rebalance text_le lab "school" 1 100

holds-rebalance_example :
    holds (after text_le lab "school" 1 100) "school" "b"
    ≡ after_changes (changes text_le lab "school" 1 100) (holds lab "school" "b") "b"
unfolding enrolled_ids
holds-rebalance_example = holds-rebalance text_le lab "school" 1 100 "b" refl

rebalance_takes_oldest_example : 10 ≤ 30
unfolding rebalance_licences prune delete_all plan_changes licensed_by_age
    list_enrolled_workstations enrolled_ids since_of oldest_first last_seen_of insert_all
    insert_unlicensed
rebalance_takes_oldest_example =
    rebalance_takes_oldest text_le lab "school" 1 100 "b" "a" refl refl refl

-- With two places again, c gets its licence back and b does not.
rebalance_gives_newest_example : 10 ≤ 20
unfolding rebalance_licences prune delete_all delete_unlicensed plan_changes licensed_by_age
    waiting_by_age list_enrolled_workstations enrolled_ids since_of oldest_first newest_first
    last_seen_of insert_all insert_unlicensed
rebalance_gives_newest_example =
    rebalance_gives_newest text_le squeezed "school" 2 200 "c" "b" refl refl refl

rebalance_again_example :
    changes text_le (after text_le lab "school" 1 100) "school" 1 200
    ≡ record { unlicensed = []; relicensed = [] }
rebalance_again_example = rebalance_again text_le lab "school" 1 100 200

-- The licence of a goes to b.
abbrev swapped_seats : Seating
swapped_seats = record lab {
  unlicensed_workstations = row "other" "x" 7 ∷ row "school" "c" 100 ∷ row "school" "a" 300 ∷ [];
}

swap : move_licence_to text_le squeezed "school" "b" 1 300 ≡ (swapped_seats, moved (some "a"))
unfolding move_licence_to delete_unlicensed licensed_by_age list_enrolled_workstations enrolled_ids
    since_of oldest_first last_seen_of insert_unlicensed
swap = refl

move_licence_to_counts_example :
    (holds swapped_seats "school" "b" ≡ true)
    × (licensed_count swapped_seats "school" ≡ (
        if leb 1 (licensed_count squeezed "school")
        then licensed_count squeezed "school"
        else licensed_count squeezed "school" + 1))
move_licence_to_counts_example =
    move_licence_to_counts text_le squeezed "school" "b" 1 300 swapped_seats (some "a") swap

move_licence_to_displaces_oldest_example :
    (1 ≤ licensed_count squeezed "school")
    × (holds squeezed "school" "a" ≡ true)
    × ((k : String)
        → mem k (enrolled_ids squeezed.device_tokens "school") ≡ true
        → holds squeezed "school" k ≡ true
        → last_seen_of squeezed.client_devices "school" "a"
          ≤ last_seen_of squeezed.client_devices "school" k)
move_licence_to_displaces_oldest_example =
    move_licence_to_displaces_oldest text_le squeezed "school" "b" 1 300 swapped_seats "a" swap

move_licence_to_refusals_example :
    refusal_of (move_licence_to text_le squeezed "school" "a" 1 300).1 ≡ some already_licensed
unfolding enrolled_ids since_of
move_licence_to_refusals_example = move_licence_to_refusals text_le squeezed "school" "a" 1 300
