-- ===== src/Examples/Debts.antt =====
-- A window whose debt counter was lost, and the run that repairs it.
use ouf_mcp_server.Prelude.{none, some, [], ◌∷◌, ◌≡◌, refl, arith, All}
use ouf_mcp_server.Prelude.Int.{pos, ◌+ℤ◌, ◌-ℤ◌}
use ouf_mcp_server.Orchestration.Domain.{Uuid}
use ouf_mcp_server.Store.Table.{find}
use ouf_mcp_server.Store.Schema
use ouf_mcp_server.Store.Ledger.Histories.{empty_db}
use ouf_mcp_server.Store.DebtCache.{reconcile_debt_caches}
use ouf_mcp_server.Store.DebtCache.Repaired.{IsSettled, reconcile_debt_caches-IsSettled}

abbrev window : Schema.BudgetWindow
window = record {
  service_principal_id = "portal";
  principal_id = "alice";
  tenant_id = "acme";
  policy_ref = "policy";
  window_start = 0;
  window_end = 1000;
  reserved_tool_calls = pos 0;
  consumed_tool_calls = pos 0;
  reserved_result_bytes = pos 0;
  consumed_result_bytes = pos 0;
  reserved_distinct_objects = pos 0;
  consumed_distinct_objects = pos 0;
  current_unresolved_object_debt_total = pos 0;
  allowed_object_hash_versions = [];
}

abbrev debt : Schema.ObjectDebt
debt = record {
  budget_window_id = 5;
  debt_amount = pos 3;
  state = Schema.DebtState.active;
  owner_evidence_ref = none;
}

abbrev lost : Schema.Db
lost = record empty_db { windows = (5, window) ∷ []; debts = (11, debt) ∷ [] }

lost_run : (reconcile_debt_caches (λ t. t) lost 10).repairs.delta ≡ pos 3
unfolding reconcile_debt_caches ◌+ℤ◌ ◌-ℤ◌
lost_run = refl

lost_ends : (reconcile_debt_caches (λ t. t) lost 10).failure ≡ none
unfolding reconcile_debt_caches ◌+ℤ◌ ◌-ℤ◌
lost_ends = refl

lost_there : All (λ (p : Uuid × Schema.BudgetWindow). find p.0 lost.windows ≡ some p.1) lost.windows
unfolding find
lost_there = (refl, tt)

reconcile_debt_caches-IsSettled_example :
    ((reconcile_debt_caches (λ t. t) lost 10).db.debts ≡ lost.debts)
    × All
        (λ (p : Uuid × Schema.BudgetWindow).
          IsSettled (reconcile_debt_caches (λ t. t) lost 10).db p.0)
        lost.windows
    × ((k : Uuid) → IsSettled lost k → IsSettled (reconcile_debt_caches (λ t. t) lost 10).db k)
reconcile_debt_caches-IsSettled_example =
    reconcile_debt_caches-IsSettled (λ t. t) lost 10 (omega arith) lost_there lost_ends
