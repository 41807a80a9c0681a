-- ===== src/Power/Exclusive.antt =====
-- Two schedules for the same workstations never share a day, however schedules are saved and
-- deleted.
use Prim.Native.Nat.{bit_and}
use labkiosk.Shared.{
  ℕ, ◌<◌, ◌≡◌, Bool, true, false, not, ◌&&◌, Option, none, some, List, [], ◌∷◌, ◌++◌, map, String,
  ◌==◌, nat_eq, string_eq, option_eq, eq_iff, any, All, All-snoc, same_sym, split_or, arith,
  Bool-cases, inl, inr,
}
use labkiosk.Power.Days.Bits.{days_of_list-mask_to_days, bit_and-swap}
use labkiosk.Power.Schedules.{PowerScheduleInput, power_schedule_conflict}
use labkiosk.Power.Saving.{
  ScheduleRow, GroupRow, list_power_schedules, update_row, new_row, is_schedule,
  save_power_schedule,
}

-- Two rows for the same workstations that share a day.
abbrev pub clash : ScheduleRow → ScheduleRow → Bool
clash a b =
    a.tenant_id == b.tenant_id && a.group_id == b.group_id && not (bit_and a.days b.days == 0)

-- What holds of a row and one further down: other ids, and no clash.
abbrev pub Apart : ScheduleRow → ScheduleRow → Type 0
Apart a b = ((a.id == b.id) ≡ false) × (clash a b ≡ false)

abbrev pub IsExclusive : List ScheduleRow → Type 0
IsExclusive [] = Unit
IsExclusive (r ∷ rs) = (r.days < 128) × All (Apart r) rs × IsExclusive rs

-- Whether a row leaves room for what is to be saved under `id`.
abbrev pub leaves_room : String → PowerScheduleInput → Option String → ScheduleRow → Bool
leaves_room tenant input id r = not (
    r.tenant_id == tenant
    && not (id == some r.id)
    && r.group_id == input.group_id
    && not (bit_and input.days r.days == 0))

abbrev pub LeavesRoom : String → PowerScheduleInput → Option String → ScheduleRow → Type 0
LeavesRoom tenant input id r = leaves_room tenant input id r ≡ true

-- No conflict is found only if every row leaves room.
pub conflict_none :
    (groups : List GroupRow) (tenant : String) (input : PowerScheduleInput) (id : Option String)
    (rows : List ScheduleRow)
    → IsExclusive rows
    → power_schedule_conflict (list_power_schedules groups rows tenant) input id ≡ none
    → All (LeavesRoom tenant input id) rows
unfolding power_schedule_conflict list_power_schedules
conflict_none groups tenant input id [] x h = tt
conflict_none groups tenant input id (r ∷ rs) x h =
    ground
      (arith, conflict_none groups tenant input id rs x.2, days_of_list-mask_to_days r.days x.0)

module _ (tenant : String) (input : PowerScheduleInput) (now : ℕ) (low : input.days < 128) where
  -- Inserting at the end.
  module _ (new_id : String) where
    new-Apart :
        (r : ScheduleRow)
        → r.days < 128
        → (r.id == new_id) ≡ false
        → leaves_room tenant input none r ≡ true
        → Apart r (new_row tenant new_id input now)
    new-Apart r h k room = ground (arith, bit_and-swap r.days input.days h low)

    insert-IsExclusive :
        (rows : List ScheduleRow)
        → IsExclusive rows
        → any (λ r. r.id == new_id) rows ≡ false
        → All (LeavesRoom tenant input none) rows
        → IsExclusive (rows ++ new_row tenant new_id input now ∷ [])
    insert-IsExclusive [] x k room = (low, tt, tt)
    insert-IsExclusive (r ∷ rs) (low_r, apart, x) k (room_r, room) =
        let (other, k') = split_or (r.id == new_id) (any (λ s. s.id == new_id) rs) k in
        (
          low_r,
          All-snoc (Apart r) rs (new_row tenant new_id input now) apart
              (new-Apart r low_r other room_r),
          insert-IsExclusive rs x k' room,
        )

  -- Replacing the row of an id.
  module _ (id : String) where
    update-Apart :
        (r s : ScheduleRow)
        → r.days < 128
        → s.days < 128
        → Apart r s
        → leaves_room tenant input (some id) r ≡ true
        → leaves_room tenant input (some id) s ≡ true
        → Apart (update_row tenant id input now r) (update_row tenant id input now s)
    update-Apart r s h k (ids, days) room_r room_s = ground (
      arith,
      bit_and-swap r.days input.days h low,
      same_sym r.group_id input.group_id,
      eq_iff r.tenant_id tenant,
      eq_iff s.tenant_id tenant,
      eq_iff r.tenant_id s.tenant_id,
      eq_iff r.id id,
      eq_iff s.id id,
      eq_iff r.id s.id,
      same_sym r.id id,
      same_sym s.id id,
      same_sym s.group_id input.group_id,
    )

    update-All-Apart :
        (r : ScheduleRow) (rs : List ScheduleRow)
        → r.days < 128
        → leaves_room tenant input (some id) r ≡ true
        → IsExclusive rs
        → All (LeavesRoom tenant input (some id)) rs
        → All (Apart r) rs
        → All (Apart (update_row tenant id input now r)) (map (update_row tenant id input now) rs)
    update-All-Apart r [] h room_r x room a = tt
    update-All-Apart r (s ∷ rs) h room_r (low_s, _, x) (room_s, room) (a, as') =
        (update-Apart r s h low_s a room_r room_s, update-All-Apart r rs h room_r x room as')

    update-IsExclusive :
        (rows : List ScheduleRow)
        → IsExclusive rows
        → All (LeavesRoom tenant input (some id)) rows
        → IsExclusive (map (update_row tenant id input now) rows)
    update-IsExclusive [] x room = tt
    update-IsExclusive (r ∷ rs) (low_r, apart, x) (room_r, room) = (
      ground arith,
      update-All-Apart r rs low_r room_r x room apart,
      update-IsExclusive rs x room,
    )

  pub save-IsExclusive :
      (rows : List ScheduleRow) (new_id : String) (id : Option String)
      → IsExclusive rows
      → All (LeavesRoom tenant input id) rows
      → IsExclusive (save_power_schedule rows tenant input now new_id id).0
  unfolding save_power_schedule
  save-IsExclusive rows new_id none x room = elim (Bool-cases (any (λ r. r.id == new_id) rows)) [
    | inl taken ↦ rw taken x
    | inr free ↦ rw free (insert-IsExclusive new_id rows x free room)
  ]
  save-IsExclusive rows new_id (some id) x room =
      elim (Bool-cases (any (is_schedule tenant id) rows)) [
        | inl found ↦ rw found (update-IsExclusive id rows x room)
        | inr gone ↦ rw gone x
      ]
