-- ===== src/Exams/Finish.antt =====
-- exams.ts `examClients` and `finishExam`: the workstations of an exam sent back to their portal.
pub mod Resets
use labkiosk.Shared.{
  ℕ, zero, suc, ◌+◌, ◌/◌, ◌≤◌, ◌<◌, ◌≡◌, ◌∙◌, refl, sym, ap, Bool, true, false, not, ◌&&◌, max,
  Option, none, some, List, [], ◌∷◌, ◌++◌, map, String, ◌==◌, string_eq, option_eq, length, filter,
  find, any, take, drop, sort, is_none, if◌then◌else◌, arith, Bool-cases, inl, inr, mem-append,
  mem-map, any-sort, length-drop-le, any-filter, take-append-drop, map-congr, map-map,
}
use labkiosk.Db.{
  DeviceRow, TenantRow, broadcast_row, set_clients_broadcast, update_tenant_broadcast,
}
use labkiosk.Exams.{ExamRow, ExamWindow, exam_epoch, exam_covers}
use labkiosk.Exams.Sessions.{EventRow}

-- The tables that ending an exam writes.
pub record ExamTables : Type 0 where
  pub exam_sessions : List ExamRow
  pub exam_events : List EventRow
  pub client_devices : List DeviceRow
  pub tenants : List TenantRow

-- `WHERE tenant_id = ?`, and `AND group_name = ?` for an exam of one group.
abbrev pub is_covered : String → Option String → DeviceRow → Bool
is_covered tenant group d = d.tenant_id == tenant && exam_covers group d.group_name

module _ (sql_le : String → String → Bool) where
  unfoldable pub exam_clients : List DeviceRow → String → Option String → List DeviceRow
  exam_clients devices tenant group =
      sort (λ a b. sql_le a.client_id b.client_id) (filter (is_covered tenant group) devices)

abbrev pub batch : ℕ
batch = 90

-- `for (let i = 0; i < clients.length; i += 90) …`, a round for each batch.
unfoldable pub broadcast_in_batches :
    ℕ → List DeviceRow → String → List String → Option String → ℕ → List DeviceRow
broadcast_in_batches zero devices tenant ids url epoch = devices
broadcast_in_batches (suc fuel) devices tenant [] url epoch = devices
broadcast_in_batches (suc fuel) devices tenant (c ∷ cs) url epoch =
    broadcast_in_batches fuel (set_clients_broadcast devices tenant (take batch (c ∷ cs)) url epoch)
      tenant (drop batch (c ∷ cs)) url epoch

abbrev pub is_unfinished : String → ExamRow → Bool
is_unfinished id e = e.id == id && is_none e.finalized_at

-- `SET finalized_at = ? WHERE id = ? AND finalized_at IS NULL`
abbrev pub finalize : String → ℕ → ExamRow → ExamRow
finalize id at e = if is_unfinished id e then record e { finalized_at = some at } else e

-- Newer than the exam's own epoch even when it ends in the second it started.
abbrev pub reset_epoch : ExamWindow → ℕ → ℕ
reset_epoch exam now_ms = max now_ms (exam_epoch exam.starts_at + 1)

module _ (sql_le : String → String → Bool) where
  unfoldable pub send_back : ExamTables → String → Option String → ℕ → ℕ → ExamTables
  unfolding exam_clients broadcast_in_batches update_tenant_broadcast
  send_back db tenant none at_ms clock = record db {
    tenants = update_tenant_broadcast db.tenants tenant none at_ms clock;
  }
  send_back db tenant (some group) at_ms clock =
      let clients =
        map (λ d. d.client_id) (exam_clients sql_le db.client_devices tenant (some group)) in
      record db {
        client_devices =
            broadcast_in_batches (length clients) db.client_devices tenant clients none at_ms;
      }

  -- The tables, and whether the exam was finished here.
  unfoldable pub finish_exam : ExamTables → ExamWindow → ℕ → ℕ → ExamTables × Bool
  unfolding send_back
  finish_exam db exam now_ms clock =
      let at_ms = reset_epoch exam now_ms in
      let finalized = record db {
        exam_sessions = map (finalize exam.id (at_ms / 1000)) db.exam_sessions;
      } in
      if not (any (is_unfinished exam.id) db.exam_sessions)
      then (finalized, false)
      else if exam.cancelled
      then (finalized, true)
      else elim (find (λ e. e.id == exam.id) finalized.exam_sessions) [
        | none ↦ (finalized, false)
        | some row ↦ (send_back finalized row.tenant_id exam.group_name at_ms clock, true)
      ]
