-- ===== src/Store/DebtCache.antt =====
-- `ReconcileDebtCaches` of internal/adapter/postgres/maintenance.go, which sets the debt counter of a
-- window to the sum of its active debts. `ordered` is the `order by` of its first query. Each window is
-- a transaction of its own: what was committed stays when a later one fails. Both sums are bigints and
-- not negative, so their difference is exact; the sum of the differences is an int64. The row is
-- locked, so the test of the update on the cached sum holds. A limit below 1 is 0 here.
pub mod Repaired
use ouf_mcp_server.Prelude.{
  ℕ, zero, suc, ◌+◌, String, Bool, true, false, not, ◌&&◌, ◌||◌, Option, none, some, List, [], ◌∷◌,
  ltb, ◌==◌, if◌then◌else◌, length, Result, err, ok, ◌>>=◌,
}
use ouf_mcp_server.Prelude.Int.{ℤ, pos, ◌+ℤ◌, wrap_64, ◌-ℤ◌, ltb_ℤ, eqb_ℤ}
use ouf_mcp_server.Orchestration.Domain.{Uuid}
use ouf_mcp_server.Store.Table.{Table, find, modify, total}
use ouf_mcp_server.Store.Schema
use ouf_mcp_server.Store.Schema.{StoreError, row, update_window}

-- `debt_amount` where `debt_state = 'ACTIVE'`.
abbrev pub active_amount : Schema.DebtState → ℤ → ℤ
active_amount Schema.DebtState.active amount = amount
active_amount Schema.DebtState.resolved amount = pos 0

abbrev pub debt_share : Uuid → Schema.ObjectDebt → ℤ
debt_share id d = if d.budget_window_id == id then active_amount d.state d.debt_amount else pos 0

-- `coalesce(sum(debt_amount), 0)` of the active debts of a window.
unfoldable pub active_debt : Schema.Db → Uuid → ℤ
unfolding total
active_debt db id = total (debt_share id) db.debts

unfoldable pub debt_cache_delta : ℤ → ℤ → Result StoreError ℤ
debt_cache_delta cached authoritative =
    if ltb_ℤ cached (pos 0) || ltb_ℤ authoritative (pos 0)
    then err (StoreError.database "negative debt total violates persistence invariants")
    else ok (authoritative -ℤ cached)

abbrev pub with_debt : ℤ → Schema.BudgetWindow → Schema.BudgetWindow
with_debt amount w = record w { current_unresolved_object_debt_total = amount }

abbrev pub repair_event : Schema.AuditEvent
repair_event = record {
  event_type = "BUDGET_DEBT_CACHE_REPAIRED";
  actor_type = "MAINTENANCE_WORKER";
  service_principal_id = "";
  attempt_id = none;
  manifest_checksum = "";
}

abbrev pub audited : Schema.Db → Schema.Db
audited db = record db { audit = repair_event ∷ db.audit }

-- The transaction on one window, with the difference that it repaired.
abbrev pub store_debt : Schema.Db → Uuid → ℤ → ℤ → Result StoreError (Schema.Db × ℤ)
store_debt db id authoritative delta =
    if eqb_ℤ delta (pos 0)
    then ok (db, delta)
    else update_window id (with_debt authoritative) db >>= λ after. ok (audited after, delta)

unfoldable pub repair : Schema.Db → Uuid → Result StoreError (Schema.Db × ℤ)
unfolding find active_debt debt_cache_delta update_window
repair db id = row (find id db.windows) >>= λ w.
    debt_cache_delta w.current_unresolved_object_debt_total (active_debt db id) >>= λ delta.
    store_debt db id (active_debt db id) delta

pub record Repairs : Type 0 where
  pub checked : ℕ
  pub repaired : ℕ
  pub delta : ℤ

-- What the loop leaves: the committed tables, the result, and the error that ended it.
pub record Outcome : Type 0 where
  pub db : Schema.Db
  pub repairs : Repairs
  pub failure : Option StoreError

abbrev pub counted : Repairs → ℤ → Repairs
counted r delta =
    if eqb_ℤ delta (pos 0)
    then r
    else record r { repaired = suc r.repaired; delta = wrap_64 (r.delta +ℤ delta) }

abbrev pub settle :
    Result StoreError (Schema.Db × ℤ)
    → Schema.Db
    → Repairs
    → (Schema.Db → Repairs → Outcome)
    → Outcome
settle (err e) db r again = record { db = db; repairs = r; failure = some e }
settle (ok p) db r again = again p.0 (counted r p.1)

unfoldable pub repair_all : Schema.Db → Repairs → List Uuid → Outcome
unfolding repair
repair_all db r [] = record { db = db; repairs = r; failure = none }
repair_all db r (id ∷ rest) =
    settle (repair db id) db r (λ after counts. repair_all after counts rest)

-- The windows of the first query whose counter is not the sum.
unfoldable pub stale_windows : Schema.Db → ℕ → Table Schema.BudgetWindow → List Uuid
unfolding active_debt
stale_windows db zero windows = []
stale_windows db (suc n) [] = []
stale_windows db (suc n) ((id, w) ∷ rest) =
    if eqb_ℤ w.current_unresolved_object_debt_total (active_debt db id)
    then stale_windows db (suc n) rest
    else id ∷ stale_windows db n rest

unfoldable pub reconcile_debt_caches :
    (Table Schema.BudgetWindow → Table Schema.BudgetWindow) → Schema.Db → ℕ → Outcome
unfolding repair_all stale_windows ◌+ℤ◌ wrap_64
reconcile_debt_caches ordered db limit =
    if ltb limit 1
    then record {
      db = db;
      repairs = record { checked = 0; repaired = 0; delta = pos 0 };
      failure = some (StoreError.database "maintenance batch limit must be positive");
    }
    else let ids : List Uuid = stale_windows db limit (ordered db.windows) in
      repair_all db (record { checked = length ids; repaired = 0; delta = pos 0 }) ids
