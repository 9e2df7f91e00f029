-- ===== src/Store/Reserve/Rows.antt =====
-- The rows that `Store.Reserve` inserts, and what it adds to its window.
use ouf_mcp_server.Prelude.{◌+◌, ◌-◌, ◌%◌, String, false, none, [], ◌∷◌}
use ouf_mcp_server.Prelude.Int.{pos, pos_part, ◌+ℤ◌}
use ouf_mcp_server.Orchestration.Domain.{Cost, AdmissionRequest, Time, Uuid}
use ouf_mcp_server.Store.Schema

abbrev pub first_guard : Schema.RetryGuard
first_guard = record { equivalent_attempts = 1; blocked = false; blocking_attempts = 0 }

abbrev pub empty_window : AdmissionRequest → String → Time → Schema.BudgetWindow
empty_window request policy start = record {
  service_principal_id = request.identity.service_principal_id;
  principal_id = request.identity.principal_id;
  tenant_id = request.identity.tenant_id;
  policy_ref = policy;
  window_start = start;
  window_end = start + pos_part request.window;
  reserved_tool_calls = pos 0;
  consumed_tool_calls = pos 0;
  reserved_result_bytes = pos 0;
  consumed_result_bytes = pos 0;
  reserved_distinct_objects = pos 0;
  consumed_distinct_objects = pos 0;
  current_unresolved_object_debt_total = pos 0;
  allowed_object_hash_versions = "v1" ∷ [];
}

-- `now.Truncate(window)`, for a positive window.
abbrev pub window_start : Time → AdmissionRequest → Time
window_start now request = now - now % pos_part request.window

abbrev pub new_attempt : Time → AdmissionRequest → Schema.ToolAttempt
new_attempt now request = record {
  service_principal_id = request.identity.service_principal_id;
  principal_id = request.identity.principal_id;
  tenant_id = request.identity.tenant_id;
  capability_id = request.capability_id;
  operation_class = request.operation_class;
  manifest_checksum = request.manifest_checksum;
  idempotency_key = request.idempotency_key;
  request_hash = request.request_hash;
  correlation_id = request.correlation_id;
  state = Schema.AttemptState.admitted;
  dispatch_state = Schema.DispatchState.not_dispatched;
  backend_request_id = none;
  admitted_at = now;
  started_at = none;
  completed_at = none;
  lease_until = none;
  lock_version = 0;
  recovery_owner = none;
  recovery_lease_until = none;
  unknown_since = none;
  outcome_code = none;
  result_ref = none;
  outcome_revision = 0;
}

abbrev pub new_claim : AdmissionRequest → Schema.IdempotencyClaim
new_claim request = record {
  service_principal_id = request.identity.service_principal_id;
  principal_id = request.identity.principal_id;
  tenant_id = request.identity.tenant_id;
  owner = request.owner;
  capability_id = request.capability_id;
  operation_class = request.operation_class;
  idempotency_key = request.idempotency_key;
  request_hash = request.request_hash;
  state = Schema.ClaimState.bound;
  lock_version = 0;
}

abbrev pub new_context : AdmissionRequest → Uuid → Uuid → Schema.AdmissionContext
new_context request window group = record {
  budget_window_id = window;
  equivalence_group_id = group;
  owner = request.owner;
  actor_type = request.identity.actor_type;
  authentication_context_ref = request.identity.authentication_context_ref;
  authorization_decision_ref = request.authorization_decision_ref;
  semantic_fingerprint = request.semantic_fingerprint;
  fingerprint_version = request.fingerprint_version;
}

abbrev pub new_reservation : Cost → Uuid → Schema.Reservation
new_reservation maximum window = record {
  budget_window_id = window;
  reserved_tool_calls = maximum.tool_calls;
  reserved_result_bytes = maximum.result_bytes;
  reserved_distinct_objects_max = maximum.distinct_objects;
  state = Schema.ReservationState.reserved;
  actual_tool_calls = none;
  actual_result_bytes = none;
  actual_distinct_objects = none;
  actual_unresolved_object_debt_max = pos 0;
  reconciled_at = none;
}

abbrev pub hold : Cost → Schema.BudgetWindow → Schema.BudgetWindow
hold maximum w = record w {
  reserved_tool_calls = w.reserved_tool_calls +ℤ maximum.tool_calls;
  reserved_result_bytes = w.reserved_result_bytes +ℤ maximum.result_bytes;
  reserved_distinct_objects = w.reserved_distinct_objects +ℤ maximum.distinct_objects;
}
