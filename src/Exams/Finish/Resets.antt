-- ===== src/Exams/Finish/Resets.antt =====
-- The batches of `finishExam` are one update, and an exam is finished once.
use labkiosk.Shared.{
  ℕ, zero, suc, ◌/◌, ◌≤◌, ◌<◌, ◌≡◌, ◌∙◌, refl, sym, ap, Bool, true, false, ◌&&◌, ◌||◌, option_beq,
  ==_sym, Option, none, some, List, [], ◌∷◌, ◌++◌, map, String, ◌==◌, string_eq, option_eq, length,
  filter, find, any, take, drop, if◌then◌else◌, arith, Bool-cases, inl, inr, mem-append, mem-map,
  any-sort, length-drop-le, any-filter, take-append-drop, map-congr, map-map,
}
use labkiosk.Db.{DeviceRow, broadcast_row, set_clients_broadcast}
use labkiosk.Exams.{ExamRow, ExamWindow, exam_epoch, exam_covers}
use labkiosk.Exams.Finish.{
  ExamTables, is_covered, exam_clients, batch, broadcast_in_batches, is_unfinished, finalize,
  reset_epoch, send_back, finish_exam,
}

-- One batch after another is one update of all of them.
broadcast_row-append :
    (tenant : String) (xs ys : List String) (url : Option String) (epoch : ℕ) (d : DeviceRow)
    → broadcast_row tenant ys url epoch (broadcast_row tenant xs url epoch d)
      ≡ broadcast_row tenant (xs ++ ys) url epoch d
broadcast_row-append tenant xs ys url epoch d = ground (arith, mem-append d.client_id xs ys)

broadcast_none :
    (tenant : String) (url : Option String) (epoch : ℕ) (devices : List DeviceRow)
    → map (broadcast_row tenant [] url epoch) devices ≡ devices
broadcast_none tenant url epoch [] = refl
broadcast_none tenant url epoch (d ∷ ds) = ground (arith, broadcast_none tenant url epoch ds)

length-drop-batch :
    (c : String) (cs : List String) (fuel : ℕ)
    → length (c ∷ cs) ≤ suc fuel
    → length (drop batch (c ∷ cs)) ≤ fuel
length-drop-batch c cs fuel h = omega (arith, length-drop-le 89 cs)

set_clients_broadcast_lem :
    (devices : List DeviceRow) (tenant : String) (ids : List String) (url : Option String)
    (epoch : ℕ)
    → set_clients_broadcast devices tenant ids url epoch
      ≡ map (broadcast_row tenant ids url epoch) devices
unfolding set_clients_broadcast
set_clients_broadcast_lem devices tenant [] url epoch =
    sym (broadcast_none tenant url epoch devices)
set_clients_broadcast_lem devices tenant (c ∷ cs) url epoch = refl

broadcast_in_batches_lem :
    (fuel : ℕ) (devices : List DeviceRow) (tenant : String) (ids : List String)
    (url : Option String) (epoch : ℕ)
    → length ids ≤ fuel
    → broadcast_in_batches fuel devices tenant ids url epoch
      ≡ map (broadcast_row tenant ids url epoch) devices
unfolding broadcast_in_batches
broadcast_in_batches_lem zero devices tenant [] url epoch h =
    sym (broadcast_none tenant url epoch devices)
broadcast_in_batches_lem zero devices tenant (c ∷ cs) url epoch h = absurd (omega arith)
broadcast_in_batches_lem (suc fuel) devices tenant [] url epoch h =
    sym (broadcast_none tenant url epoch devices)
broadcast_in_batches_lem (suc fuel) devices tenant (c ∷ cs) url epoch h =
    rw
      (
        broadcast_in_batches_lem fuel _ tenant (drop batch (c ∷ cs)) url epoch
            (length-drop-batch c cs fuel h),
        set_clients_broadcast_lem devices tenant (take batch (c ∷ cs)) url epoch,
        map-map (broadcast_row tenant (drop batch (c ∷ cs)) url epoch)
            (broadcast_row tenant (take batch (c ∷ cs)) url epoch) devices,
      )
      (map-congr _ _ devices (λ d.
        broadcast_row-append tenant (take batch (c ∷ cs)) (drop batch (c ∷ cs)) url epoch d
        ∙ ap (λ ids. broadcast_row tenant ids url epoch d) (take-append-drop batch (c ∷ cs))))

finalized_all :
    (id : String) (at : ℕ) (rows : List ExamRow)
    → any (is_unfinished id) (map (finalize id at) rows) ≡ false
finalized_all id at [] = refl
finalized_all id at (e ∷ rows) = ground (arith, finalized_all id at rows)

finalize_none :
    (id : String) (at : ℕ) (rows : List ExamRow)
    → any (is_unfinished id) rows ≡ false
    → map (finalize id at) rows ≡ rows
finalize_none id at [] h = refl
finalize_none id at (e ∷ rows) h = ground (arith, finalize_none id at rows)

found_finalized :
    (id : String) (at : ℕ) (rows : List ExamRow) (row : ExamRow)
    → find (λ e. e.id == id) rows ≡ some row
    → row.finalized_at ≡ none
    → (any (is_unfinished id) rows ≡ true)
      × (find (λ e. e.id == id) (map (finalize id at) rows)
          ≡ some (record row { finalized_at = some at }))
found_finalized id at [] row h k = cc
found_finalized id at (e ∷ rows) row h k = elim (Bool-cases (e.id == id)) [
  | inl here ↦ ground arith
  | inr there ↦ ground (arith, found_finalized id at rows row)
]

module _ (sql_le : String → String → Bool) where
  send_back-sessions :
      (db : ExamTables) (tenant : String) (group : Option String) (at_ms clock : ℕ)
      → (send_back sql_le db tenant group at_ms clock).exam_sessions ≡ db.exam_sessions
  unfolding send_back
  send_back-sessions db tenant none at_ms clock = refl
  send_back-sessions db tenant (some group) at_ms clock = refl

  finish_again :
      (db : ExamTables) (exam : ExamWindow) (now_ms clock : ℕ)
      → any (is_unfinished exam.id) db.exam_sessions ≡ false
      → finish_exam sql_le db exam now_ms clock ≡ (db, false)
  unfolding finish_exam
  finish_again db exam now_ms clock h = rw h (
      ap (λ rows. (record db { exam_sessions = rows }, false))
        (finalize_none exam.id (reset_epoch exam now_ms / 1000) db.exam_sessions h))

group_lem :
    (group : String) (own : Option String)
    → exam_covers (some group) own ≡ option_beq own (some group)
group_lem group none = refl
group_lem group (some own) = ==_sym group own

or_both : {a b c d : Bool} → a ≡ b → c ≡ d → (a || c) ≡ (b || d)
or_both e f = cc

-- A row of a workstation of the tenant and of the group, with this identifier.
abbrev pub is_same_of_group : String → String → String → DeviceRow → Bool
is_same_of_group tenant group id c =
    c.tenant_id == tenant && option_beq c.group_name (some group) && c.client_id == id

covered_lem :
    (tenant group id : String) (rows : List DeviceRow)
    → any (λ c. is_covered tenant (some group) c && c.client_id == id) rows
      ≡ any (is_same_of_group tenant group id) rows
covered_lem tenant group id [] = refl
covered_lem tenant group id (c ∷ cs) =
    or_both
      (ap (λ b. (c.tenant_id == tenant && b) && c.client_id == id) (group_lem group c.group_name))
      (covered_lem tenant group id cs)

module _ (sql_le : String → String → Bool) (db : ExamTables) (exam : ExamWindow)
    (now_ms clock : ℕ) where
  pub finish_exam-sessions :
      (finish_exam sql_le db exam now_ms clock).0.exam_sessions
      ≡ map (finalize exam.id (reset_epoch exam now_ms / 1000)) db.exam_sessions
  unfolding finish_exam
  finish_exam-sessions = ground (arith, send_back-sessions sql_le)

  -- An exam is finished once: whoever comes later changes nothing and is told so.
  pub finish_exam_once :
      (again_ms again : ℕ)
      → finish_exam sql_le (finish_exam sql_le db exam now_ms clock).0 exam again_ms again
        ≡ ((finish_exam sql_le db exam now_ms clock).0, false)
  finish_exam_once again_ms again =
      finish_again sql_le (finish_exam sql_le db exam now_ms clock).0 exam again_ms again (
        rw finish_exam-sessions
          (finalized_all exam.id (reset_epoch exam now_ms / 1000) db.exam_sessions))

  -- What a row is afterwards: of the tenant, and named as a workstation of the group.
  abbrev pub reset_device : String → String → DeviceRow → DeviceRow
  reset_device tenant group d =
      if d.tenant_id == tenant && any (is_same_of_group tenant group d.client_id) db.client_devices
      then record d { broadcast_url = none; broadcast_epoch = reset_epoch exam now_ms }
      else d

  -- The device rows after the batches, whatever the order in which they went.
  send_back-devices :
      (tables : ExamTables) (tenant group : String)
      → tables.client_devices ≡ db.client_devices
      → (send_back sql_le tables tenant (some group) (reset_epoch exam now_ms) clock).client_devices
        ≡ map (reset_device tenant group) db.client_devices
  unfolding send_back exam_clients
  send_back-devices tables tenant group h =
      let clients =
        map (λ d. d.client_id) (exam_clients sql_le tables.client_devices tenant (some group)) in
      broadcast_in_batches_lem (length clients) tables.client_devices tenant clients none
        (reset_epoch exam now_ms) (omega arith)
      ∙ rw h (
          map-congr _ _ db.client_devices (λ d.
            rw
              (
                mem-map (λ c. c.client_id) d.client_id
                    (exam_clients sql_le db.client_devices tenant (some group)),
                any-sort (λ a b. sql_le a.client_id b.client_id) (λ c. c.client_id == d.client_id)
                    (filter (is_covered tenant (some group)) db.client_devices),
                any-filter (is_covered tenant (some group)) (λ c. c.client_id == d.client_id)
                    db.client_devices,
                covered_lem tenant group d.client_id db.client_devices,
              )
              refl))

  -- The first to finish an exam of a group that ran clears the broadcast of the group's workstations,
  -- with an epoch that is newer than the exam's, and of no others.
  pub finish_exam_resets :
      (row : ExamRow) (group : String)
      → find (λ e. e.id == exam.id) db.exam_sessions ≡ some row
      → row.finalized_at ≡ none
      → exam.cancelled ≡ false
      → exam.group_name ≡ some group
      → ((finish_exam sql_le db exam now_ms clock).1 ≡ true)
        × ((finish_exam sql_le db exam now_ms clock).0.client_devices
            ≡ map (reset_device row.tenant_id group) db.client_devices)
        × (exam_epoch exam.starts_at < reset_epoch exam now_ms)
        × (now_ms ≤ reset_epoch exam now_ms)
  unfolding finish_exam
  finish_exam_resets row group f h k g =
      let (unfinished, found) =
        found_finalized exam.id (reset_epoch exam now_ms / 1000) db.exam_sessions row f h in
      rw (unfinished, k, found, g)
        (
          refl,
          send_back-devices
              (record db {
                exam_sessions =
                    map (finalize exam.id (reset_epoch exam now_ms / 1000)) db.exam_sessions;
              })
              row.tenant_id group refl,
          omega arith,
          omega arith,
        )
