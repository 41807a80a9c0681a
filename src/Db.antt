-- ===== src/Db.antt =====
-- Rows of the tables that several parts share, and cloudflare-control/src/db.ts
-- `setClientsBroadcast`. A table is the list of its rows, in the order of insertion.
use labkiosk.Shared.{
  ℕ, ◌&&◌, Option, List, [], ◌∷◌, map, String, ◌==◌, string_eq, mem, if◌then◌else◌,
}

-- The columns of `client_devices` that the modelled code reads and writes.
pub record DeviceRow : Type 0 where
  pub tenant_id : String
  pub client_id : String
  pub group_name : Option String
  pub last_seen : ℕ
  pub broadcast_url : Option String
  pub broadcast_epoch : ℕ

abbrev pub broadcast_row : String → List String → Option String → ℕ → DeviceRow → DeviceRow
broadcast_row tenant_id client_ids url epoch d =
    if d.tenant_id == tenant_id && mem d.client_id client_ids
    then record d { broadcast_url = url; broadcast_epoch = epoch }
    else d

unfoldable pub set_clients_broadcast :
    List DeviceRow → String → List String → Option String → ℕ → List DeviceRow
set_clients_broadcast devices tenant_id [] url epoch = devices
set_clients_broadcast devices tenant_id (c ∷ cs) url epoch =
    map (broadcast_row tenant_id (c ∷ cs) url epoch) devices

-- The columns of `tenants` that the modelled code writes.
pub record TenantRow : Type 0 where
  pub id : String
  pub broadcast_url : Option String
  pub broadcast_epoch : ℕ
  pub updated_at : ℕ

-- `updateTenant` with the two columns of a broadcast; `clock` is the time it reads.
abbrev pub tenant_row : String → Option String → ℕ → ℕ → TenantRow → TenantRow
tenant_row tenant url epoch clock t =
    if t.id == tenant
    then record t { broadcast_url = url; broadcast_epoch = epoch; updated_at = clock }
    else t

unfoldable pub update_tenant_broadcast :
    List TenantRow → String → Option String → ℕ → ℕ → List TenantRow
update_tenant_broadcast tenants tenant url epoch clock =
    map (tenant_row tenant url epoch clock) tenants
