-- ===== src/Store/Attempt.antt =====
-- `Store.MarkRunning` and `Store.Reconcile` of internal/adapter/postgres/store.go: the life of an
-- admitted attempt that its own process completes.
use ouf_mcp_server.Prelude.{
  ℕ, suc, ◌+◌, String, Bool, true, false, ◌&&◌, ◌||◌, Option, none, some, ◌==◌, if◌then◌else◌, ok,
  err, ◌>>=◌,
}
use ouf_mcp_server.Prelude.Int.{pos, ◌+ℤ◌, ◌-ℤ◌, ltb_ℤ}
use ouf_mcp_server.Orchestration.Domain.{Cost, AttemptOutcome, Time, Duration, Uuid}
use ouf_mcp_server.Store.Table.{find, modify}
use ouf_mcp_server.Store.Schema

abbrev pub is_admitted : Schema.AttemptState → Bool
is_admitted Schema.AttemptState.admitted = true
is_admitted _ = false

abbrev pub is_not_dispatched : Schema.DispatchState → Bool
is_not_dispatched Schema.DispatchState.not_dispatched = true
is_not_dispatched _ = false

abbrev pub run_attempt : Time → String → Duration → Schema.ToolAttempt → Schema.ToolAttempt
run_attempt now backend lease a = record a {
  state = Schema.AttemptState.running;
  dispatch_state = Schema.DispatchState.dispatched;
  backend_request_id = some backend;
  started_at = some now;
  lease_until = some (now + lease);
  lock_version = suc a.lock_version;
}

-- One compare-and-swap statement; no row is an error of its `Scan`. The unique constraint on
-- `backend_request_id`, a new uuid, is not represented.
unfoldable pub mark_running : Time → Uuid → String → Duration → ℕ → Schema.Db → Schema.Tx
unfolding find modify
mark_running now id backend lease expected db = do
  a ← Schema.row (find id db.attempts)
  if is_admitted a.state && is_not_dispatched a.dispatch_state && a.lock_version == expected
      then ok (record db { attempts = modify id (run_attempt now backend lease) db.attempts })
      else err Schema.no_rows

abbrev pub is_reconciled : Schema.ReservationState → Bool
is_reconciled Schema.ReservationState.reconciled = true
is_reconciled _ = false

-- The window of a reservation whose cost is known.
abbrev pub settle : Schema.Reservation → Cost → Schema.BudgetWindow → Schema.BudgetWindow
settle r actual w = record w {
  reserved_tool_calls = w.reserved_tool_calls -ℤ r.reserved_tool_calls;
  reserved_result_bytes = w.reserved_result_bytes -ℤ r.reserved_result_bytes;
  reserved_distinct_objects = w.reserved_distinct_objects -ℤ r.reserved_distinct_objects_max;
  consumed_tool_calls = w.consumed_tool_calls +ℤ actual.tool_calls;
  consumed_result_bytes = w.consumed_result_bytes +ℤ actual.result_bytes;
  consumed_distinct_objects = w.consumed_distinct_objects +ℤ actual.distinct_objects;
}

abbrev pub reconcile_reservation : Time → Cost → Schema.Reservation → Schema.Reservation
reconcile_reservation now actual r = record r {
  state = Schema.ReservationState.reconciled;
  actual_tool_calls = some actual.tool_calls;
  actual_result_bytes = some actual.result_bytes;
  actual_distinct_objects = some actual.distinct_objects;
  reconciled_at = some now;
}

abbrev or_else : Option String → String → String
or_else none s = s
or_else (some t) s = t

abbrev pub complete_attempt : Time → AttemptOutcome → Schema.ToolAttempt → Schema.ToolAttempt
complete_attempt now outcome a = record a {
  state = if outcome.success then Schema.AttemptState.succeeded else Schema.AttemptState.failed;
  dispatch_state = Schema.DispatchState.acknowledged;
  backend_request_id = some (or_else a.backend_request_id outcome.backend_request_id);
  lease_until = none;
  completed_at = some now;
  lock_version = suc a.lock_version;
}

unfoldable pub reconcile : Time → Uuid → Cost → AttemptOutcome → Schema.Db → Schema.Tx
unfolding find modify Schema.update_window
reconcile now id actual outcome db = do
  r ← Schema.row (find id db.reservations)
  if is_reconciled r.state
      then ok db
      else if ltb_ℤ actual.distinct_objects (pos 0)
          || ltb_ℤ r.reserved_distinct_objects_max actual.distinct_objects
      then err Schema.objects_exceed_reservation
      else do
        db' ← Schema.update_window r.budget_window_id (settle r actual) db
        ok (record db' {
          reservations = modify id (reconcile_reservation now actual) db'.reservations;
          attempts = modify id (complete_attempt now outcome) db'.attempts;
        })
