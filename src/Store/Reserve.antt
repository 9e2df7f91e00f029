-- ===== src/Store/Reserve.antt =====
-- `Store.Reserve` of internal/adapter/postgres/store.go: one serializable transaction binds the
-- idempotency claim, the budget window, the equivalence group, the attempt and its reservation.
-- The row locks of `for update` leave no trace in a transaction that runs alone. The foreign key
-- to the manifest table is not represented.
pub mod Rows
pub mod Admission
pub mod Limits
pub mod Groups
pub mod Repeated
pub mod Retry
use ouf_mcp_server.Prelude.{
  ℕ, suc, ◌+◌, ◌-◌, ◌%◌, String, Bool, true, false, not, ◌&&◌, ◌||◌, Option, none, some, List, [],
  ◌∷◌, ltb, leb, ◌==◌, if◌then◌else◌, is_some, ◌is◌, ◌differs◌, Result, ok, err, ◌>>=◌,
}
use ouf_mcp_server.Prelude.Int.{ℤ, pos, pos_part, ◌+ℤ◌, wrap_64, ltb_ℤ, leb_ℤ}
use ouf_mcp_server.Orchestration.Domain.{Cost, AdmissionRequest, AdmissionDecision, Time, Uuid}
use ouf_mcp_server.Orchestration.Budget.{admission_window_budget}
use ouf_mcp_server.Store.Table.{Table, find, modify, put, search_row, total}
use ouf_mcp_server.Store.Schema
use Rows.{
  window_start, empty_window, first_guard, new_attempt, new_claim, new_context, new_reservation,
  hold,
}

-- The ids that `uuid.New` gives to the rows of this transaction.
pub record FreshIds : Type 0 where
  pub window : Uuid
  pub group : Uuid
  pub attempt : Uuid

-- The sum of two int64 values.
abbrev pub plus_64 : ℤ → ℤ → ℤ
plus_64 a b = wrap_64 (a +ℤ b)

unfoldable pub claims_request : AdmissionRequest → Schema.IdempotencyClaim → Bool
claims_request request c =
    c.service_principal_id is request.identity.service_principal_id
    && c.principal_id is request.identity.principal_id
    && c.tenant_id is request.identity.tenant_id
    && c.owner is request.owner
    && c.capability_id is request.capability_id
    && c.operation_class is request.operation_class
    && c.idempotency_key is request.idempotency_key

abbrev pub outcome_unknown : Schema.AttemptState → Bool
outcome_unknown Schema.AttemptState.unknown = true
outcome_unknown Schema.AttemptState.unresolved = true
outcome_unknown _ = false

-- The key was used: by the same request, whose attempt is named again, or by another.
unfoldable pub replay :
    AdmissionRequest
    → Uuid
    → Schema.IdempotencyClaim
    → Schema.Db
    → Result Schema.StoreError (AdmissionDecision × Schema.Db)
unfolding find
replay request id claim db =
    if claim.request_hash differs request.request_hash then err Schema.idempotency_conflict else do
      attempt ← Schema.row (find id db.attempts)
      if outcome_unknown attempt.state
          then err Schema.idempotency_outcome_unknown
          else ok (record { attempt_id = id; lock_version = 0; replay = true }, db)

unfoldable pub is_window : AdmissionRequest → String → Time → Schema.BudgetWindow → Bool
is_window request policy start w =
    w.service_principal_id is request.identity.service_principal_id
    && w.principal_id is request.identity.principal_id
    && w.tenant_id is request.identity.tenant_id
    && w.policy_ref is policy
    && w.window_start == start

-- `insert ... on conflict do update ... returning budget_window_id`.
unfoldable pub ensure_window :
    Uuid → AdmissionRequest → String → Time → Schema.Db → Uuid × Schema.Db
unfolding search_row is_window
ensure_window fresh request policy start db =
    elim (search_row (is_window request policy start) db.windows) [
      | some (id, w) ↦ (id, db)
      | none ↦
          (fresh, record db { windows = put fresh (empty_window request policy start) db.windows })
    ]

unfoldable pub is_group : AdmissionRequest → Uuid → Schema.EquivalenceGroup → Bool
is_group request window g =
    g.budget_window_id == window
    && g.capability_id is request.capability_id
    && g.fingerprint_version is request.fingerprint_version
    && g.semantic_fingerprint is request.semantic_fingerprint

unfoldable pub ensure_group : Uuid → AdmissionRequest → Uuid → Schema.Db → Uuid × Schema.Db
unfolding search_row is_group
ensure_group fresh request window db = elim (search_row (is_group request window) db.groups) [
  | some (id, g) ↦ (id, db)
  | none ↦ (
    fresh,
    record db {
      groups =
          put fresh
            (record {
              budget_window_id = window;
              capability_id = request.capability_id;
              fingerprint_version = request.fingerprint_version;
              semantic_fingerprint = request.semantic_fingerprint;
            })
            db.groups;
    },
  )
]

-- `insert into retry_guard ... on conflict do update set equivalent_attempts + 1 returning ...`.
unfoldable pub count_attempt : Uuid → Schema.Db → Schema.RetryGuard × Schema.Db
unfolding find modify
count_attempt group db = elim (find group db.guards) [
  | none ↦ (first_guard, record db { guards = put group first_guard db.guards })
  | some g ↦ (
    record g { equivalent_attempts = suc g.equivalent_attempts },
    record db {
      guards =
          modify group (λ h. record h { equivalent_attempts = suc h.equivalent_attempts })
            db.guards;
    },
  )
]

-- `sum(debt_amount)` over the active debts of the window.
abbrev pub debt_share : Uuid → Schema.ObjectDebt → ℤ
debt_share window d = elim d.state [
  | Schema.DebtState.active ↦ if d.budget_window_id == window then d.debt_amount else pos 0
  | Schema.DebtState.resolved ↦ pos 0
]

abbrev pub over_calls : Cost → Cost → Schema.BudgetWindow → Bool
over_calls maximum window_maximum w =
    ltb_ℤ window_maximum.tool_calls
      (plus_64 (plus_64 w.reserved_tool_calls w.consumed_tool_calls) maximum.tool_calls)

abbrev pub over_bytes : Cost → Cost → Schema.BudgetWindow → Bool
over_bytes maximum window_maximum w =
    ltb_ℤ window_maximum.result_bytes
      (plus_64 (plus_64 w.reserved_result_bytes w.consumed_result_bytes) maximum.result_bytes)

abbrev pub over_objects : Cost → Cost → Schema.BudgetWindow → ℤ → Bool
over_objects maximum window_maximum w debt =
    ltb_ℤ (pos 0) maximum.distinct_objects
    && ltb_ℤ window_maximum.distinct_objects (
        plus_64 (plus_64 (plus_64 w.reserved_distinct_objects w.consumed_distinct_objects) debt)
          maximum.distinct_objects)

unfoldable pub exceeds_budget : Cost → Cost → Schema.BudgetWindow → ℤ → Bool
unfolding ◌+ℤ◌ wrap_64
exceeds_budget maximum window_maximum w debt =
    over_calls maximum window_maximum w
    || over_bytes maximum window_maximum w
    || over_objects maximum window_maximum w debt

-- The unique key of `tool_attempt`, which leaves the owner out.
unfoldable pub same_key : AdmissionRequest → Schema.ToolAttempt → Bool
same_key request a =
    a.service_principal_id is request.identity.service_principal_id
    && a.principal_id is request.identity.principal_id
    && a.tenant_id is request.identity.tenant_id
    && a.capability_id is request.capability_id
    && a.operation_class is request.operation_class
    && a.idempotency_key is request.idempotency_key

-- The five statements that write the attempt, under the constraints of their tables.
unfoldable pub insert_attempt : Time → AdmissionRequest → Uuid → Uuid → Uuid → Schema.Db → Schema.Tx
unfolding find search_row same_key Schema.update_window
insert_attempt now request id window group db =
    if is_some (find id db.attempts)
      || is_some (search_row (same_key request) db.attempts)
      || is_some (find id db.claims)
      || is_some (find id db.contexts)
      || is_some (find id db.reservations)
    then err Schema.unique_violation
    else if ltb_ℤ request.maximum.distinct_objects (pos 0)
    then err Schema.check_violation
    else Schema.update_window window (hold request.maximum) (record db {
      attempts = put id (new_attempt now request) db.attempts;
      claims = put id (new_claim request) db.claims;
      contexts = put id (new_context request window group) db.contexts;
      reservations = put id (new_reservation request.maximum window) db.reservations;
    })

-- The guard's answer. A stall also sets `blocked`, but its transaction is rolled back with it.
unfoldable pub guarded : AdmissionRequest → Schema.RetryGuard → Schema.Tx → Schema.Tx
guarded request g admit =
    if ltb 0 g.blocking_attempts
    then err Schema.group_locked
    else if g.blocked || leb_ℤ request.retry_threshold (pos g.equivalent_attempts)
    then err Schema.tool_selection_stall
    else admit

-- The key is new: the window, its budget, the group and its guard, then the rows.
unfoldable pub admit_new :
    Time → FreshIds → Uuid → String → Cost → AdmissionRequest → Schema.Db → Schema.Tx
unfolding ensure_window ensure_group count_attempt exceeds_budget guarded insert_attempt find total
admit_new now fresh id policy window_maximum request db =
    let (window, db1) = ensure_window fresh.window request policy (window_start now request) db in
    do
      w ← Schema.row (find window db1.windows)
      if exceeds_budget request.maximum window_maximum w (total (debt_share window) db1.debts)
          then err Schema.budget_exhausted
          else let (group, db2) = ensure_group fresh.group request window db1 in
            let (g, db3) = count_attempt group db2 in
            guarded request g (insert_attempt now request id window group db3)

abbrev pub attempt_id : FreshIds → AdmissionRequest → Uuid
attempt_id fresh request = if request.attempt_id == 0 then fresh.attempt else request.attempt_id

-- A profile without a budget is one error of the store.
abbrev pub or_unsupported {ℓ κ} :
    {E : Type ℓ} {A : Type κ} → Result E A → Result Schema.StoreError A
or_unsupported (ok a) = ok a
or_unsupported (err e) = err Schema.unsupported_budget

unfoldable pub reserve_once :
    Time
    → FreshIds
    → AdmissionRequest
    → Schema.Db
    → Result Schema.StoreError (AdmissionDecision × Schema.Db)
unfolding admission_window_budget search_row claims_request replay admit_new
reserve_once now fresh request db =
    if leb_ℤ request.window (pos 0)
      || ltb_ℤ request.retry_threshold (pos 1)
      || ltb_ℤ request.maximum.tool_calls (pos 1)
    then err Schema.invalid_admission_policy
    else do
      (policy, window_maximum) ← or_unsupported (admission_window_budget request)
      elim (search_row (claims_request request) db.claims) [
        | some (id, claim) ↦ replay request id claim db
        | none ↦ do
          db' ← admit_new now fresh (attempt_id fresh request) policy window_maximum request db
          ok (
            record { attempt_id = attempt_id fresh request; lock_version = 0; replay = false },
            db',
          )
      ]
