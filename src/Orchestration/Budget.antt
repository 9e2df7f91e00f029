-- ===== src/Orchestration/Budget.antt =====
-- internal/orchestration/operational_budget.go: the budget of a window.
use Prim.Native.String.{◌++◌}
use ouf_mcp_server.Prelude.{
  ◌*◌, ◌^◌, String, Bool, false, not, ◌||◌, List, [], ◌∷◌, if◌then◌else◌, ◌differs◌, blank, has,
  Result, ok, err,
}
use ouf_mcp_server.Prelude.Int.{ℤ, pos, ◌*ℤ◌, wrap_64, ltb_ℤ, eqb_ℤ}
use ouf_mcp_server.Orchestration.Domain.{Cost, AdmissionRequest, minute}

abbrev pub operational_control_budget_profile : String
operational_control_budget_profile = "ouf.operational-control-budget.v1"

abbrev pub producer_reads : List String
producer_reads =
    "ouf.ingestion.operations.summary" ∷ "ouf.ingestion.operations.incidents"
    ∷ "ouf.gateway.operations.summary" ∷ "ouf.gateway.operations.incidents" ∷ []

unfoldable pub is_operational_producer_read : String → String → Bool
unfolding has
is_operational_producer_read capability operation =
    if operation differs "READ" then false else has producer_reads capability

unfoldable pub is_operational_control_read : String → String → Bool
unfolding has
is_operational_control_read capability operation =
    if operation differs "READ"
    then false
    else has ("ouf.operations.summary" ∷ "ouf.operations.incidents" ∷ producer_reads) capability

-- A product of two int64 values.
abbrev pub times_64 : ℤ → ℤ → ℤ
times_64 a b = wrap_64 (a *ℤ b)

pub data BudgetError : Type 0 where
  unsupported_operational_control_budget : BudgetError

-- The key of the policy of the window, and what the window may cost.
unfoldable pub admission_window_budget : AdmissionRequest → Result BudgetError (String × Cost)
unfolding is_operational_control_read wrap_64 ◌*ℤ◌
admission_window_budget request =
    let limit = request.maximum in
    if blank request.budget_profile
    then ok (
      request.manifest_checksum,
      record {
        tool_calls = times_64 limit.tool_calls request.retry_threshold;
        result_bytes = times_64 limit.result_bytes request.retry_threshold;
        distinct_objects = times_64 limit.distinct_objects request.retry_threshold;
      },
    )
    else if request.budget_profile differs operational_control_budget_profile
        || not (is_operational_control_read request.capability_id request.operation_class)
        || not (eqb_ℤ request.window (pos minute))
        || not (eqb_ℤ request.retry_threshold (pos 3))
        || not (eqb_ℤ limit.tool_calls (pos 1))
        || ltb_ℤ limit.result_bytes (pos 1)
        || ltb_ℤ (pos (512 * 2 ^ 10)) limit.result_bytes
        || ltb_ℤ limit.distinct_objects (pos 0)
        || ltb_ℤ (pos 100) limit.distinct_objects
    then err unsupported_operational_control_budget
    else ok (
      request.manifest_checksum ++ (":" ++ operational_control_budget_profile),
      record { tool_calls = pos 24; result_bytes = pos (12 * 2 ^ 20); distinct_objects = pos 2400 },
    )
