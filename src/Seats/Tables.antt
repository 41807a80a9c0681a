-- ===== src/Seats/Tables.antt =====
-- What the statements of plans.ts do to the table of unlicensed workstations.
use mathlib.Core.List.{append-nil}
use labkiosk.Shared.{
  ℕ, ◌≡◌, refl, ◌∙◌, Bool, true, false, not, ◌&&◌, ◌||◌, List, [], ◌∷◌, ◌++◌, map, String, ◌==◌,
  string_eq, mem, mem-distinct, filter, any, is_none, arith, eq_iff, any-append,
}
use labkiosk.Seats.{
  Seating, UnlicensedRow, is_row_of, since_of, insert_unlicensed, delete_unlicensed, insert_all,
  delete_all, prune, is_live, is_current, enrolled_ids, TokenRow,
}

-- Whether the table has a row for the workstation.
abbrev pub is_listed : List UnlicensedRow → String → String → Bool
is_listed us tenant client = any (is_row_of tenant client) us

pub since_of_lem :
    (us : List UnlicensedRow) (tenant client : String)
    → is_none (since_of us tenant client) ≡ not (is_listed us tenant client)
unfolding since_of
since_of_lem [] tenant client = refl
since_of_lem (u ∷ us) tenant client = ground (arith, since_of_lem us tenant client)

pub is_listed-insert :
    (us : List UnlicensedRow) (tenant k client : String) (now : ℕ)
    → is_listed (insert_unlicensed tenant now us k) tenant client
      ≡ (is_listed us tenant client || k == client)
unfolding insert_unlicensed
is_listed-insert us tenant k client now = ground (
  arith,
  eq_iff k client,
  eq_iff tenant tenant,
  any-append (is_row_of tenant client) us
      (record { tenant_id = tenant; client_id = k; since = now } ∷ []),
)

pub is_listed-delete :
    (us : List UnlicensedRow) (tenant k client : String)
    → is_listed (delete_unlicensed tenant us k) tenant client
      ≡ (is_listed us tenant client && not (k == client))
unfolding delete_unlicensed
is_listed-delete [] tenant k client = refl
is_listed-delete (u ∷ us) tenant k client = ground (
  arith,
  is_listed-delete us tenant k client,
  eq_iff k client,
  eq_iff u.client_id k,
  eq_iff u.client_id client,
)

pub is_listed-insert_all :
    (us : List UnlicensedRow) (tenant client : String) (now : ℕ) (cs : List String)
    → is_listed (insert_all tenant now us cs) tenant client
      ≡ (is_listed us tenant client || mem client cs)
unfolding insert_all
is_listed-insert_all us tenant client now [] = ground arith
is_listed-insert_all us tenant client now (c ∷ cs) = ground (
  arith,
  is_listed-insert us tenant c client now,
  is_listed-insert_all (insert_unlicensed tenant now us c) tenant client now cs,
)

pub is_listed-delete_all :
    (us : List UnlicensedRow) (tenant client : String) (cs : List String)
    → is_listed (delete_all tenant us cs) tenant client
      ≡ (is_listed us tenant client && not (mem client cs))
unfolding delete_all
is_listed-delete_all us tenant client [] = ground arith
is_listed-delete_all us tenant client (c ∷ cs) = ground (
  arith,
  is_listed-delete us tenant c client,
  is_listed-delete_all (delete_unlicensed tenant us c) tenant client cs,
)

is_listed-filter_current :
    (us : List UnlicensedRow) (tokens : List TokenRow) (tenant client : String)
    → is_listed (filter (is_current tokens tenant) us) tenant client ≡ (
        is_listed us tenant client
        && mem client (map (λ r. r.client_id) (filter (is_live tenant) tokens)))
is_listed-filter_current [] tokens tenant client = refl
is_listed-filter_current (u ∷ us) tokens tenant client =
    ground (arith, is_listed-filter_current us tokens tenant client, eq_iff u.client_id client)

pub is_listed-prune :
    (db : Seating) (tenant client : String)
    → is_listed (prune db tenant).unlicensed_workstations tenant client ≡ (
        is_listed db.unlicensed_workstations tenant client
        && mem client (enrolled_ids db.device_tokens tenant))
unfolding prune enrolled_ids
is_listed-prune db tenant client = ground (
  arith,
  is_listed-filter_current db.unlicensed_workstations db.device_tokens tenant client,
  mem-distinct client (map (λ r. r.client_id) (filter (is_live tenant) db.device_tokens)),
)

-- The rows of every other organization, in order.
abbrev pub rows_of_others : String → List UnlicensedRow → List UnlicensedRow
rows_of_others tenant us = filter (λ u. not (u.tenant_id == tenant)) us

rows_of_others-append :
    (tenant : String) (us vs : List UnlicensedRow)
    → rows_of_others tenant (us ++ vs) ≡ rows_of_others tenant us ++ rows_of_others tenant vs
rows_of_others-append tenant [] vs = refl
rows_of_others-append tenant (u ∷ us) vs = ground (arith, rows_of_others-append tenant us vs)

pub rows_of_others-insert :
    (us : List UnlicensedRow) (tenant k : String) (now : ℕ)
    → rows_of_others tenant (insert_unlicensed tenant now us k) ≡ rows_of_others tenant us
unfolding insert_unlicensed
rows_of_others-insert us tenant k now = ground (
  arith,
  eq_iff tenant tenant,
  append-nil (rows_of_others tenant us),
  rows_of_others-append tenant us (record { tenant_id = tenant; client_id = k; since = now } ∷ []),
)

-- A filter that lets the rows of the others through leaves them as they are.
rows_of_others-filter :
    (tenant : String) (p : UnlicensedRow → Bool) (us : List UnlicensedRow)
    → ((u : UnlicensedRow) → (u.tenant_id == tenant) ≡ false → p u ≡ true)
    → rows_of_others tenant (filter p us) ≡ rows_of_others tenant us
rows_of_others-filter tenant p [] h = refl
rows_of_others-filter tenant p (u ∷ us) h = ground (arith, h u, rows_of_others-filter tenant p us h)

pub rows_of_others-delete :
    (us : List UnlicensedRow) (tenant k : String)
    → rows_of_others tenant (delete_unlicensed tenant us k) ≡ rows_of_others tenant us
unfolding delete_unlicensed
rows_of_others-delete us tenant k =
    rows_of_others-filter tenant (λ u. not (is_row_of tenant k u)) us (λ u e. ground arith)

pub rows_of_others-insert_all :
    (us : List UnlicensedRow) (tenant : String) (now : ℕ) (cs : List String)
    → rows_of_others tenant (insert_all tenant now us cs) ≡ rows_of_others tenant us
unfolding insert_all
rows_of_others-insert_all us tenant now [] = refl
rows_of_others-insert_all us tenant now (c ∷ cs) =
    rows_of_others-insert_all (insert_unlicensed tenant now us c) tenant now cs
    ∙ rows_of_others-insert us tenant c now

pub rows_of_others-delete_all :
    (us : List UnlicensedRow) (tenant : String) (cs : List String)
    → rows_of_others tenant (delete_all tenant us cs) ≡ rows_of_others tenant us
unfolding delete_all
rows_of_others-delete_all us tenant [] = refl
rows_of_others-delete_all us tenant (c ∷ cs) =
    rows_of_others-delete_all (delete_unlicensed tenant us c) tenant cs
    ∙ rows_of_others-delete us tenant c

pub rows_of_others-prune :
    (db : Seating) (tenant : String)
    → rows_of_others tenant (prune db tenant).unlicensed_workstations
      ≡ rows_of_others tenant db.unlicensed_workstations
unfolding prune
rows_of_others-prune db tenant =
    rows_of_others-filter tenant (is_current db.device_tokens tenant) db.unlicensed_workstations
      (λ u e. ground arith)
