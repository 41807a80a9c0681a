-- ===== src/Power/Requests.antt =====
-- The requests that store and delete power schedules, in any order and from any organization.
use labkiosk.Shared.{
  ℕ, ◌+◌, ◌<◌, ◌≤◌, ◌≡◌, ◌⊎◌, ◌∙◌, refl, Bool, false, not, ◌&&◌, Option, none, some, List, [], ◌∷◌,
  map, String, ◌==◌, nat_eq, string_eq, eq_iff, leb, length, filter, is_none, All-filter, arith, ap,
  if◌then◌else◌, Bool-cases, inl, inr, length-map, count, length-filter, count-append,
}
use labkiosk.Shared.Result.{ok, Outcome-cases}
use labkiosk.Json.{Json}
use labkiosk.Power.Schedules.{
  PowerScheduleInput, parse_power_schedule_input, parse_power_schedule_input-days,
  power_schedule_conflict,
}
use labkiosk.Power.Saving.{
  ScheduleRow, GroupRow, schedule_of, list_power_schedules, is_schedule, update_row, new_row,
  save_power_schedule, delete_power_schedule, store_schedule, post_power_schedule, reply_of,
  requested_id, SaveResult, max_power_schedules,
}
use labkiosk.Power.Exclusive.{IsExclusive, Apart, conflict_none, save-IsExclusive}

rows-reply_of : (r : List ScheduleRow × SaveResult) → (reply_of r).0 ≡ r.0
rows-reply_of (rows, SaveResult.written id) = refl
rows-reply_of (rows, SaveResult.no_row) = refl
rows-reply_of (rows, SaveResult.key_taken) = refl

module _ (groups : List GroupRow) (rows : List ScheduleRow) (tenant : String) where
  -- What `store_schedule` leaves: the rows as they were, or those that the save leaves, and then no
  -- conflict was found and a new schedule is below the limit.
  store_cases :
      (input : PowerScheduleInput) (id : Option String) (now : ℕ) (new_id : String)
      → ((store_schedule groups rows tenant input id now new_id).0 ≡ rows)
        ⊎ (((store_schedule groups rows tenant input id now new_id).0
              ≡ (save_power_schedule rows tenant input now new_id id).0)
            × (power_schedule_conflict (list_power_schedules groups rows tenant) input id ≡ none)
            × ((is_none id
                  && leb max_power_schedules (length (list_power_schedules groups rows tenant)))
                ≡ false))
  unfolding store_schedule
  store_cases input id now new_id =
      ground (arith, rows-reply_of (save_power_schedule rows tenant input now new_id id))

  store-IsExclusive :
      (input : PowerScheduleInput) (id : Option String) (now : ℕ) (new_id : String)
      → input.days < 128
      → IsExclusive rows
      → IsExclusive (store_schedule groups rows tenant input id now new_id).0
  store-IsExclusive input id now new_id low x = elim (store_cases input id now new_id) [
    | inl same ↦ rw same x
    | inr (left, free, _) ↦ rw left (
        save-IsExclusive tenant input now low rows new_id id x
          (conflict_none groups tenant input id rows x free))
  ]

  post_cases :
      (body : Json) (now : ℕ) (new_id : String)
      → ((post_power_schedule groups rows tenant body now new_id).0 ≡ rows)
        ⊎ ((input : PowerScheduleInput) × (parse_power_schedule_input body ≡ ok input)
            × ((post_power_schedule groups rows tenant body now new_id).0
                ≡ (store_schedule groups rows tenant input (requested_id body) now new_id).0))
  unfolding post_power_schedule
  post_cases body now new_id = elim (Outcome-cases (parse_power_schedule_input body)) [
    | inl (input, e) ↦ inr (input, e, ground arith)
    | inr (reason, e) ↦ inl (ground arith)
  ]

  -- Whatever the body of the request, storing a schedule keeps every two schedules for the same
  -- workstations from sharing a day.
  pub post-IsExclusive :
      (body : Json) (now : ℕ) (new_id : String)
      → IsExclusive rows
      → IsExclusive (post_power_schedule groups rows tenant body now new_id).0
  post-IsExclusive body now new_id x = elim (post_cases body now new_id) [
    | inl same ↦ rw same x
    | inr (input, e, left) ↦ rw left (
        store-IsExclusive input (requested_id body) now new_id
          (parse_power_schedule_input-days body input e) x)
  ]

-- How many schedules an organization keeps.
abbrev pub schedule_count : String → List ScheduleRow → ℕ
schedule_count tenant rows = count (λ r. r.tenant_id == tenant) rows

module _ (rows : List ScheduleRow) (tenant : String) (input : PowerScheduleInput) (now : ℕ)
    (new_id : String) where
  schedule_count-update :
      (id whose : String) (rs : List ScheduleRow)
      → schedule_count whose (map (update_row tenant id input now) rs) ≡ schedule_count whose rs
  schedule_count-update id whose [] = refl
  schedule_count-update id whose (r ∷ rs) = ground (arith, schedule_count-update id whose rs)

  -- A save adds a schedule to its own organization alone, and only if it is a new one.
  schedule_count-save :
      (id : Option String) (whose : String)
      → schedule_count whose (save_power_schedule rows tenant input now new_id id).0
        ≤ schedule_count whose rows + (if is_none id && tenant == whose then 1 else 0)
  unfolding save_power_schedule
  schedule_count-save none whose =
      ground (
        arith,
        count-append (λ r. r.tenant_id == whose) rows (new_row tenant new_id input now ∷ []),
      )
  schedule_count-save (some id) whose = ground (arith, schedule_count-update id whose rows)

module _ (groups : List GroupRow) (rows : List ScheduleRow) (tenant : String) where
  length-list : length (list_power_schedules groups rows tenant) ≡ schedule_count tenant rows
  unfolding list_power_schedules
  length-list =
      length-map (schedule_of groups) (filter (λ r. r.tenant_id == tenant) rows)
      ∙ length-filter (λ r. r.tenant_id == tenant) rows

  -- No request takes an organization that keeps at most 50 schedules past 50, whoever sends it.
  pub schedule_count-post :
      (body : Json) (now : ℕ) (new_id whose : String)
      → schedule_count whose rows ≤ max_power_schedules
      → schedule_count whose (post_power_schedule groups rows tenant body now new_id).0
        ≤ max_power_schedules
  schedule_count-post body now new_id whose h =
      elim (post_cases groups rows tenant body now new_id) [
        | inl same ↦ rw same h
        | inr (input, e, left) ↦
            elim (store_cases groups rows tenant input (requested_id body) now new_id) [
              | inl same ↦ rw (left, same) h
              | inr (put, free, room) ↦
                  rw (left, put)
                    (ground (
                      arith,
                      schedule_count-save rows tenant input now new_id (requested_id body) whose,
                      length-list,
                      eq_iff tenant whose,
                      ap (λ t. schedule_count t rows) {x = tenant} {y = whose},
                    ))
            ]
      ]

-- A deletion keeps the schedules of the same workstations apart too.
filter-IsExclusive :
    (p : ScheduleRow → Bool) (rows : List ScheduleRow)
    → IsExclusive rows
    → IsExclusive (filter p rows)
filter-IsExclusive p [] x = tt
filter-IsExclusive p (r ∷ rs) (low, apart, x) = elim (Bool-cases (p r)) [
  | inl stays ↦ rw stays (low, All-filter (Apart r) p rs apart, filter-IsExclusive p rs x)
  | inr goes ↦ rw goes (filter-IsExclusive p rs x)
]

-- A request to the routes of power schedules, with the groups, the clock and the random id that it
-- meets.
pub data Request : Type 0 where
  post : String → List GroupRow → Json → ℕ → String → Request
  delete : String → String → Request

unfoldable pub serve : List ScheduleRow → List Request → List ScheduleRow
serve rows [] = rows
serve rows (post tenant groups body now new_id ∷ rest) =
    serve (post_power_schedule groups rows tenant body now new_id).0 rest
serve rows (delete tenant id ∷ rest) = serve (delete_power_schedule rows tenant id).0 rest

-- From a table where that holds, and so from an empty one, after any requests of any
-- organizations, no two schedules for the same workstations share a day.
pub serve-IsExclusive :
    (rows : List ScheduleRow) (requests : List Request)
    → IsExclusive rows
    → IsExclusive (serve rows requests)
unfolding serve delete_power_schedule
serve-IsExclusive rows [] x = x
serve-IsExclusive rows (post tenant groups body now new_id ∷ rest) x =
    serve-IsExclusive (post_power_schedule groups rows tenant body now new_id).0 rest
      (post-IsExclusive groups rows tenant body now new_id x)
serve-IsExclusive rows (delete tenant id ∷ rest) x =
    serve-IsExclusive (filter (λ r. not (is_schedule tenant id r)) rows) rest
      (filter-IsExclusive (λ r. not (is_schedule tenant id r)) rows x)
