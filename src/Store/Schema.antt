-- ===== src/Store/Schema.antt =====
-- The tables of internal/adapter/postgres/migrations that the store's transactions read and write,
-- and the transactions: a statement that fails rolls the whole transaction back.
-- A foreign id is a key of another table. Sums of the bigint columns are exact here; PostgreSQL
-- fails a statement whose sum leaves the bigint range.
pub mod Rows
use ouf_mcp_server.Prelude.{
  ℕ, String, Bool, true, false, not, ◌&&◌, Option, none, some, List, [], ◌∷◌, if◌then◌else◌, Result,
  ok, err,
}
use ouf_mcp_server.Prelude.Int.{ℤ, pos, leb_ℤ}
use ouf_mcp_server.Orchestration.Domain.{Time, Uuid}
use ouf_mcp_server.Store.Table.{Table, find, modify}

pub data AttemptState : Type 0 where
  admitted running succeeded failed unknown unresolved : AttemptState

pub data DispatchState : Type 0 where
  not_dispatched dispatched confirmed acknowledged unknown : DispatchState

pub data ReservationState : Type 0 where
  reserved reconciled released unknown : ReservationState

pub data ClaimState : Type 0 where
  bound unknown completed : ClaimState

pub data DebtState : Type 0 where
  active resolved : DebtState

pub data EvidenceState : Type 0 where
  verified consumed quarantined : EvidenceState

-- `tool_attempt`
pub record ToolAttempt : Type 0 where
  pub service_principal_id : String
  pub principal_id : String
  pub tenant_id : String
  pub capability_id : String
  pub operation_class : String
  pub manifest_checksum : String
  pub idempotency_key : String
  pub request_hash : String
  pub correlation_id : String
  pub state : AttemptState
  pub dispatch_state : DispatchState
  pub backend_request_id : Option String
  pub admitted_at : Time
  pub started_at : Option Time
  pub completed_at : Option Time
  pub lease_until : Option Time
  pub lock_version : ℕ
  pub recovery_owner : Option String
  pub recovery_lease_until : Option Time
  pub unknown_since : Option Time
  pub outcome_code : Option String
  pub result_ref : Option String
  pub outcome_revision : ℕ

-- `budget_window`
pub record BudgetWindow : Type 0 where
  pub service_principal_id : String
  pub principal_id : String
  pub tenant_id : String
  pub policy_ref : String
  pub window_start : Time
  pub window_end : Time
  pub reserved_tool_calls : ℤ
  pub consumed_tool_calls : ℤ
  pub reserved_result_bytes : ℤ
  pub consumed_result_bytes : ℤ
  pub reserved_distinct_objects : ℤ
  pub consumed_distinct_objects : ℤ
  pub current_unresolved_object_debt_total : ℤ
  pub allowed_object_hash_versions : List String

-- `retry_equivalence_group`
pub record EquivalenceGroup : Type 0 where
  pub budget_window_id : Uuid
  pub capability_id : String
  pub fingerprint_version : String
  pub semantic_fingerprint : String

-- `retry_guard`, under the id of its group
pub record RetryGuard : Type 0 where
  pub equivalent_attempts : ℕ
  pub blocked : Bool
  pub blocking_attempts : ℕ

-- `idempotency_claim`, under its unique `attempt_id`
pub record IdempotencyClaim : Type 0 where
  pub service_principal_id : String
  pub principal_id : String
  pub tenant_id : String
  pub owner : String
  pub capability_id : String
  pub operation_class : String
  pub idempotency_key : String
  pub request_hash : String
  pub state : ClaimState
  pub lock_version : ℕ

-- `attempt_admission_context`
pub record AdmissionContext : Type 0 where
  pub budget_window_id : Uuid
  pub equivalence_group_id : Uuid
  pub owner : String
  pub actor_type : String
  pub authentication_context_ref : String
  pub authorization_decision_ref : String
  pub semantic_fingerprint : String
  pub fingerprint_version : String

-- `budget_reservation`, under its unique `attempt_id`
pub record Reservation : Type 0 where
  pub budget_window_id : Uuid
  pub reserved_tool_calls : ℤ
  pub reserved_result_bytes : ℤ
  pub reserved_distinct_objects_max : ℤ
  pub state : ReservationState
  pub actual_tool_calls : Option ℤ
  pub actual_result_bytes : Option ℤ
  pub actual_distinct_objects : Option ℤ
  pub actual_unresolved_object_debt_max : ℤ
  pub reconciled_at : Option Time

-- `budget_object_debt`, under its `attempt_id`
pub record ObjectDebt : Type 0 where
  pub budget_window_id : Uuid
  pub debt_amount : ℤ
  pub state : DebtState
  pub owner_evidence_ref : Option Uuid

-- `owner_evidence_inbox`
pub record OwnerEvidence : Type 0 where
  pub attempt_id : Uuid
  pub budget_window_id : Uuid
  pub backend_owner : String
  pub backend_request_id : String
  pub evidence_kind : String
  pub terminal_state : AttemptState
  pub terminal_outcome_code : String
  pub result_ref : Option String
  pub actual_distinct_objects : ℤ
  pub object_hashes : List String
  pub evidence_payload_hash : String
  pub verified_by : String
  pub evidence_state : EvidenceState

-- `budget_adjustment`, under its unique `adjustment_key`; the ids of rows that nothing refers to
-- are left out
pub record BudgetAdjustment : Type 0 where
  pub adjustment_key : String
  pub budget_window_id : Uuid
  pub attempt_id : Uuid
  pub owner_evidence_ref : Uuid
  pub prior_outcome_revision : ℕ
  pub new_outcome_revision : ℕ
  pub distinct_object_delta : ℤ
  pub unresolved_debt_delta : ℤ

-- `security_incident`
pub record SecurityIncident : Type 0 where
  pub attempt_id : Uuid
  pub evidence_ref : Uuid
  pub category : String
  pub detail_code : String
  pub evidence_payload_hash : String

-- `audit_event`
pub record AuditEvent : Type 0 where
  pub event_type : String
  pub actor_type : String
  pub service_principal_id : String
  pub attempt_id : Option Uuid
  pub manifest_checksum : String

pub record Db : Type 0 where
  pub attempts : Table ToolAttempt
  pub windows : Table BudgetWindow
  pub groups : Table EquivalenceGroup
  pub guards : Table RetryGuard
  pub claims : Table IdempotencyClaim
  pub contexts : Table AdmissionContext
  pub reservations : Table Reservation
  pub debts : Table ObjectDebt
  pub inbox : Table OwnerEvidence
  -- `budget_distinct_object`: the window and the hash
  pub distinct_objects : List (Uuid × String)
  pub adjustments : List BudgetAdjustment
  pub incidents : List SecurityIncident
  pub audit : List AuditEvent

pub data StoreError : Type 0 where
  no_rows check_violation unique_violation unexpected_row_count : StoreError
  invalid_admission_policy unsupported_budget idempotency_conflict : StoreError
  idempotency_outcome_unknown budget_exhausted group_locked tool_selection_stall : StoreError
  objects_exceed_reservation invalid_owner_evidence reservation_not_unknown : StoreError
  cost_exceeds_reservation object_evidence_required revision_mismatch : StoreError
  no_dispatch_proof_required recovery_claim_failed ingress_conflict owner_mismatch : StoreError
  database : String → StoreError

-- A body of a transaction: the new tables, or the error that rolls them back.
abbrev pub Tx : Type 0
Tx = Result StoreError Db

-- `QueryRow(...).Scan`: no row is an error.
abbrev pub row {ℓ} : {A : Type ℓ} → Option A → Result StoreError A
row none = err no_rows
row (some a) = ok a

-- `Scan` of a column into a text: a null is an error.
abbrev pub text_column : Option String → Result StoreError String
text_column none = err (StoreError.database "cannot scan NULL into *string")
text_column (some s) = ok s

-- The CHECK constraints of `budget_window` on its counters.
abbrev pub window_ok : BudgetWindow → Bool
window_ok w =
    leb_ℤ (pos 0) w.reserved_distinct_objects
    && leb_ℤ (pos 0) w.consumed_distinct_objects
    && leb_ℤ (pos 0) w.current_unresolved_object_debt_total

-- `update ouf_mcp.budget_window set ... where budget_window_id = $1`.
unfoldable pub update_window : Uuid → (BudgetWindow → BudgetWindow) → Db → Tx
unfolding find modify
update_window id f db = elim (find id db.windows) [
  | none ↦ ok db
  | some w ↦
      if window_ok (f w)
      then ok (record db { windows = modify id f db.windows })
      else err check_violation
]

-- `execOne`: an update of one row by its key and a test must find that row.
unfoldable pub exec_one {ℓ} :
    {V : Type ℓ} → Uuid → (V → Bool) → (V → V) → Table V → Result StoreError (Table V)
unfolding find modify
exec_one id test f t = elim (find id t) [
  | none ↦ err unexpected_row_count
  | some v ↦ if test v then ok (modify id f t) else err unexpected_row_count
]
