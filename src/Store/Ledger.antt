-- ===== src/Store/Ledger.antt =====
-- The ledger: what the counters of a window have to do with the rows of its attempts.
pub mod Columns
pub mod Moves
pub mod Attempts
pub mod Worker
pub mod Doubts
pub mod Reservations
pub mod Histories
use ouf_mcp_server.Prelude.{ℕ, Bool, true, false, Option, none, some, ◌≡◌, ◌==◌, if◌then◌else◌}
use ouf_mcp_server.Prelude.Int.{ℤ, pos, ◌≤ℤ◌}
use ouf_mcp_server.Orchestration.Domain.{Uuid}
use ouf_mcp_server.Store.Table.{Table, find}
use ouf_mcp_server.Store.Schema
use Columns.{IsBalanced}

-- A reservation holds calls and bytes until its cost is settled, also while its outcome is in
-- doubt. It holds objects only until the doubt begins: then they are debt.
abbrev pub held : Schema.ReservationState → ℤ → ℤ
held Schema.ReservationState.reserved n = n
held Schema.ReservationState.unknown n = n
held Schema.ReservationState.reconciled n = pos 0
held Schema.ReservationState.released n = pos 0

abbrev pub certain : Schema.ReservationState → ℤ → ℤ
certain Schema.ReservationState.reserved n = n
certain Schema.ReservationState.unknown n = pos 0
certain Schema.ReservationState.reconciled n = pos 0
certain Schema.ReservationState.released n = pos 0

abbrev pub owed : Schema.DebtState → ℤ → ℤ
owed Schema.DebtState.active n = n
owed Schema.DebtState.resolved n = pos 0

abbrev pub reservation_window : Schema.Reservation → Uuid
reservation_window r = r.budget_window_id

abbrev pub debt_window : Schema.ObjectDebt → Uuid
debt_window d = d.budget_window_id

-- The counters of every window are the sums over its rows; an attempt has one window, which is
-- there; no reservation holds a negative number of objects.
pub record IsBook (windows : Table Schema.BudgetWindow) (reservations : Table Schema.Reservation)
    (debts : Table Schema.ObjectDebt) (contexts : Table Schema.AdmissionContext) : Type 0 where
  pub calls :
      IsBalanced reservation_window
        (λ r. held r.state r.reserved_tool_calls)
        (λ w. w.reserved_tool_calls)
        windows
        reservations
  pub bytes :
      IsBalanced reservation_window
        (λ r. held r.state r.reserved_result_bytes)
        (λ w. w.reserved_result_bytes)
        windows
        reservations
  pub objects :
      IsBalanced reservation_window
        (λ r. certain r.state r.reserved_distinct_objects_max)
        (λ w. w.reserved_distinct_objects)
        windows
        reservations
  pub debt :
      IsBalanced debt_window
        (λ d. owed d.state d.debt_amount)
        (λ w. w.current_unresolved_object_debt_total)
        windows
        debts
  pub one_window :
      (id : Uuid) (c : Schema.AdmissionContext) (r : Schema.Reservation)
      → find id contexts ≡ some c
      → find id reservations ≡ some r
      → c.budget_window_id ≡ r.budget_window_id
  pub window_there :
      (id : Uuid) (r : Schema.Reservation)
      → find id reservations ≡ some r
      → (w : Schema.BudgetWindow) × (find r.budget_window_id windows ≡ some w)
  pub objects_nonneg :
      (id : Uuid) (r : Schema.Reservation)
      → find id reservations ≡ some r
      → pos 0 ≤ℤ r.reserved_distinct_objects_max

abbrev pub IsLedger : Schema.Db → Type 0
IsLedger db = IsBook db.windows db.reservations db.debts db.contexts
