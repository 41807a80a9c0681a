-- ===== src/Seats.antt =====
-- cloudflare-control/src/plans.ts, "licensed slots": which enrolled workstations the limit covers.
-- `localeCompare` belongs to the JavaScript runtime: `locale_le a b`, whether it gives no positive
-- number, is a parameter of the orders that use it.
pub mod Tables
pub mod Order
pub mod Rebalance
pub mod Recency
pub mod Settled
pub mod Move
pub mod Transfer
mod Tests
use labkiosk.Shared.{
  ℕ, ◌-◌, max, Bool, true, false, not, ◌&&◌, ◌||◌, Option, none, some, List, [], ◌∷◌, ◌++◌, map,
  String, ◌==◌, nat_eq, string_eq, ltb, leb, mem, distinct, length, filter, find, any, take, sort,
  is_none, if◌then◌else◌,
}
use labkiosk.Db.{DeviceRow}

pub record TokenRow : Type 0 where
  pub tenant_id : String
  pub client_id : String
  pub revoked : Bool

pub record UnlicensedRow : Type 0 where
  pub tenant_id : String
  pub client_id : String
  pub since : ℕ

-- The three tables that the seats are kept in.
pub record Seating : Type 0 where
  pub device_tokens : List TokenRow
  pub client_devices : List DeviceRow
  pub unlicensed_workstations : List UnlicensedRow

pub record EnrolledWorkstation : Type 0 where
  pub client_id : String
  pub last_seen : ℕ
  pub licensed : Bool
  pub since : Option ℕ

abbrev is_live : String → TokenRow → Bool
is_live tenant r = r.tenant_id == tenant && not r.revoked

-- `SELECT DISTINCT client_id FROM device_tokens WHERE tenant_id = ? AND revoked = 0`
unfoldable pub enrolled_ids : List TokenRow → String → List String
enrolled_ids tokens tenant = distinct (map (λ r. r.client_id) (filter (is_live tenant) tokens))

-- `COALESCE(MAX(c.last_seen), 0)` over a workstation's rows.
unfoldable pub last_seen_of : List DeviceRow → String → String → ℕ
last_seen_of [] tenant client = 0
last_seen_of (d ∷ ds) tenant client =
    if d.tenant_id == tenant && d.client_id == client
    then max d.last_seen (last_seen_of ds tenant client)
    else last_seen_of ds tenant client

abbrev pub is_row_of : String → String → UnlicensedRow → Bool
is_row_of tenant client u = u.tenant_id == tenant && u.client_id == client

unfoldable pub since_of : List UnlicensedRow → String → String → Option ℕ
since_of [] tenant client = none
since_of (u ∷ us) tenant client =
    if is_row_of tenant client u then some u.since else since_of us tenant client

abbrev pub enrolled : Seating → String → String → EnrolledWorkstation
enrolled db tenant client =
    let since = since_of db.unlicensed_workstations tenant client in
    record {
      client_id = client;
      last_seen = last_seen_of db.client_devices tenant client;
      licensed = is_none since;
      since = since;
    }

unfoldable pub list_enrolled_workstations : Seating → String → List EnrolledWorkstation
list_enrolled_workstations db tenant =
    map (enrolled db tenant) (enrolled_ids db.device_tokens tenant)

-- `listUnlicensed`, as the pairs of its map.
unfoldable pub list_unlicensed : Seating → String → List (String × ℕ)
list_unlicensed db tenant =
    map (λ u. (u.client_id, u.since))
      (filter (λ u. u.tenant_id == tenant) db.unlicensed_workstations)

-- `INSERT OR IGNORE`: the primary key is the tenant and the workstation.
unfoldable pub insert_unlicensed : String → ℕ → List UnlicensedRow → String → List UnlicensedRow
insert_unlicensed tenant now us client =
    if any (is_row_of tenant client) us
    then us
    else us ++ record { tenant_id = tenant; client_id = client; since = now } ∷ []

unfoldable pub delete_unlicensed : String → List UnlicensedRow → String → List UnlicensedRow
delete_unlicensed tenant us client = filter (λ u. not (is_row_of tenant client u)) us

-- The statements of a batch, in order.
unfoldable pub insert_all : String → ℕ → List UnlicensedRow → List String → List UnlicensedRow
insert_all tenant now us [] = us
insert_all tenant now us (c ∷ cs) = insert_all tenant now (insert_unlicensed tenant now us c) cs

unfoldable pub delete_all : String → List UnlicensedRow → List String → List UnlicensedRow
delete_all tenant us [] = us
delete_all tenant us (c ∷ cs) = delete_all tenant (delete_unlicensed tenant us c) cs

-- The first statement of `rebalanceLicences`: rows of workstations that are enrolled no more go.
abbrev is_current : List TokenRow → String → UnlicensedRow → Bool
is_current tokens tenant u =
    not (u.tenant_id == tenant)
    || mem u.client_id (map (λ r. r.client_id) (filter (is_live tenant) tokens))

unfoldable pub prune : Seating → String → Seating
prune db tenant = record db {
  unlicensed_workstations = filter (is_current db.device_tokens tenant) db.unlicensed_workstations;
}

pub record Changes : Type 0 where
  pub unlicensed : List String
  pub relicensed : List String

pub data MoveError : Type 0 where
  not_enrolled already_licensed no_licence : MoveError

pub data MoveResult : Type 0 where
  moved : Option String → MoveResult
  refused : MoveError → MoveResult

abbrev pub is_licensed : EnrolledWorkstation → Bool
is_licensed w = w.licensed

abbrev pub is_waiting : EnrolledWorkstation → Bool
is_waiting w = not w.licensed

abbrev pub ids : List EnrolledWorkstation → List String
ids ws = map (λ w. w.client_id) ws

-- The least recently seen licence holder gives its licence up; its row is inserted.
unfoldable pub displace :
    Seating → String → ℕ → List UnlicensedRow → List EnrolledWorkstation → Seating × MoveResult
displace db tenant now freed [] = (db, refused no_licence)
displace db tenant now freed (w ∷ ws) = (
  record db { unlicensed_workstations = insert_unlicensed tenant now freed w.client_id },
  moved (some w.client_id),
)

-- The row of the workstation that gets the licence is deleted first.
unfoldable pub give_licence :
    Seating → String → String → List EnrolledWorkstation → ℕ → ℕ → Seating × MoveResult
unfolding displace
give_licence db tenant client licensed limit now =
    let freed = delete_unlicensed tenant db.unlicensed_workstations client in
    if leb limit (length licensed)
    then displace db tenant now freed licensed
    else (record db { unlicensed_workstations = freed }, moved none)

module _ (locale_le : String → String → Bool) where
  -- `a.lastSeen - b.lastSeen || a.clientId.localeCompare(b.clientId)`
  unfoldable pub oldest_first : EnrolledWorkstation → EnrolledWorkstation → Bool
  oldest_first a b =
      ltb a.last_seen b.last_seen
      || (a.last_seen == b.last_seen && locale_le a.client_id b.client_id)

  -- `b.lastSeen - a.lastSeen || a.clientId.localeCompare(b.clientId)`
  unfoldable pub newest_first : EnrolledWorkstation → EnrolledWorkstation → Bool
  newest_first a b =
      ltb b.last_seen a.last_seen
      || (a.last_seen == b.last_seen && locale_le a.client_id b.client_id)

  unfoldable pub licensed_by_age : List EnrolledWorkstation → List EnrolledWorkstation
  licensed_by_age all = sort oldest_first (filter is_licensed all)

  unfoldable pub waiting_by_age : List EnrolledWorkstation → List EnrolledWorkstation
  waiting_by_age all = sort newest_first (filter is_waiting all)

  -- What `rebalanceLicences` decides, from the enrolled workstations.
  unfoldable pub plan_changes : List EnrolledWorkstation → ℕ → Changes
  plan_changes all limit =
      let licensed = licensed_by_age all in
      let waiting = waiting_by_age all in
      if ltb limit (length licensed)
      then record { unlicensed = ids (take (length licensed - limit) licensed); relicensed = [] }
      else if ltb (length licensed) limit
      then record { unlicensed = []; relicensed = ids (take (limit - length licensed) waiting) }
      else record { unlicensed = []; relicensed = [] }

  unfoldable pub rebalance_licences : Seating → String → ℕ → ℕ → Seating × Changes
  rebalance_licences db tenant limit now =
      let pruned = prune db tenant in
      let result = plan_changes (list_enrolled_workstations pruned tenant) limit in
      let inserted = insert_all tenant now pruned.unlicensed_workstations result.unlicensed in
      (
        record pruned { unlicensed_workstations = delete_all tenant inserted result.relicensed },
        result,
      )

  unfoldable pub move_to_target :
      Seating → String → Option EnrolledWorkstation → ℕ → ℕ → Seating × MoveResult
  unfolding give_licence
  move_to_target db tenant none limit now = (db, refused not_enrolled)
  move_to_target db tenant (some target) limit now =
      if target.licensed
      then (db, refused already_licensed)
      else give_licence db tenant target.client_id
          (licensed_by_age (list_enrolled_workstations db tenant)) limit now

  unfoldable pub move_licence_to : Seating → String → String → ℕ → ℕ → Seating × MoveResult
  unfolding move_to_target
  move_licence_to db tenant client limit now =
      move_to_target db tenant
        (find (λ w. w.client_id == client) (list_enrolled_workstations db tenant)) limit now
