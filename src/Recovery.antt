-- ===== src/Recovery.antt =====
-- `Service.RunOnce` of internal/recovery/service.go: a round of the maintenance worker on the store.
-- Each call of the store is a transaction of its own, so what was committed stays when a later
-- call fails. The owner of a capability and the error of an audit event are parameters. The count
-- `Unresolved` is not represented.
pub mod Rounds
use ouf_mcp_server.Prelude.{
  ℕ, suc, ◌+◌, ◌-◌, String, Bool, true, false, not, ◌&&◌, ◌||◌, Option, none, some, List, [], ◌∷◌,
  if◌then◌else◌, ltb, ◌is◌, ◌differs◌, blank, Result, ok, err, length,
}
use Prim.Native.String.{◌++◌}
use ouf_mcp_server.Prelude.Int.{ℤ, pos, leb_ℤ, pos_part}
use ouf_mcp_server.Orchestration.Domain.{Time, Duration, Uuid}
use ouf_mcp_server.Store.Schema
use ouf_mcp_server.Store.Recovery.{Candidate, mark_stale_and_claim}
use ouf_mcp_server.Store.OwnerOutcome.{OwnerAnswer, apply_owner_evidence, expire_unknown}

-- `OwnerQuery`
pub record OwnerQuery : Type 0 where
  pub backend_request_id : String
  pub owner : String
  pub capability_id : String
  pub correlation_id : String

-- `OwnerPort`, whose answer may be an error.
abbrev pub Owner : Type 0
Owner = OwnerQuery → Option OwnerAnswer

pub record Worker : Type 0 where
  pub worker_id : String
  pub lease : ℤ
  pub admission_grace : ℤ
  pub max_unknown_hold : ℤ
  pub batch : ℕ
  -- Is `Audit` not nil?
  pub audits : Bool
  -- The error, if any, that the database answers to the audit event of an attempt.
  pub audit_error : Uuid → Option Schema.StoreError

pub record Counts : Type 0 where
  pub claimed : ℕ
  pub reconciled : ℕ
  pub still_unknown : ℕ

pub data RecoveryError : Type 0 where
  invalid_worker invalid_owner_evidence : RecoveryError
  store : Schema.StoreError → RecoveryError

-- The tables, the counts and the error that a call leaves.
pub record Round : Type 0 where
  pub db : Schema.Db
  pub counts : Counts
  pub error : Option RecoveryError

abbrev pub misconfigured : Worker → Bool
misconfigured s =
    blank s.worker_id
    || leb_ℤ s.lease (pos 0)
    || leb_ℤ s.admission_grace (pos 0)
    || leb_ℤ s.max_unknown_hold (pos 0)
    || ltb s.batch 1

-- An owner that does not answer leaves the outcome unknown.
abbrev pub answer_of : Candidate → Option OwnerAnswer → OwnerAnswer
answer_of c (some answer) = answer
answer_of c none = record {
  backend_request_id = c.backend_request_id;
  outcome = "UNKNOWN";
  outcome_code = "OWNER_QUERY_UNAVAILABLE";
  result_ref = "";
  actual_tool_calls = pos 0;
  actual_result_bytes = pos 0;
}

abbrev pub ask : Owner → Candidate → OwnerAnswer
ask owner c = answer_of c (
    owner (record {
      backend_request_id = c.backend_request_id;
      owner = c.owner;
      capability_id = c.capability_id;
      correlation_id = c.correlation_id;
    }))

abbrev pub is_known_outcome : String → Bool
is_known_outcome s = s is "SUCCEEDED" || s is "FAILED" || s is "NOT_DISPATCHED" || s is "UNKNOWN"

-- `AppendRecoveryAudit` of the store; the detail of an event is not a column of the model.
abbrev pub append_recovery_audit : Uuid → String → Schema.Db → Schema.Db
append_recovery_audit id outcome db = record db {
  audit =
      record {
        event_type = "ATTEMPT_RECOVERY_" ++ outcome;
        actor_type = "MAINTENANCE_WORKER";
        service_principal_id = "";
        attempt_id = some id;
        manifest_checksum = "";
      }
      ∷ db.audit;
}

abbrev pub audited : Worker → Uuid → String → Schema.Db → Schema.Tx
audited s id outcome db = if not s.audits then ok db else elim (s.audit_error id) [
  | some e ↦ err e
  | none ↦ ok (append_recovery_audit id outcome db)
]

abbrev pub counted : String → Counts → Counts
counted outcome n =
    if outcome is "UNKNOWN"
    then record n { still_unknown = suc n.still_unknown }
    else record n { reconciled = suc n.reconciled }

abbrev stopped : Schema.Db → Counts → RecoveryError → Round
stopped db n e = record { db = db; counts = n; error = some e }

-- The loop over the candidates. `next` is what follows it.
unfoldable pub resolve :
    Worker
    → Owner
    → Time
    → (Schema.Db → Counts → Round)
    → List Candidate
    → Schema.Db
    → Counts
    → Round
unfolding apply_owner_evidence
resolve s owner at next [] db n = next db n
resolve s owner at next (c ∷ cs) db n =
    let answer = ask owner c in
    if answer.backend_request_id differs c.backend_request_id
      || not (is_known_outcome answer.outcome)
    then stopped db n invalid_owner_evidence
    else elim (apply_owner_evidence at c.attempt_id s.worker_id answer db) [
      | err e ↦ stopped db n (store e)
      | ok db1 ↦ elim (audited s c.attempt_id answer.outcome db1) [
        | err e ↦ stopped db1 n (store e)
        | ok db2 ↦ resolve s owner at next cs db2 (counted answer.outcome n)
      ]
    ]

-- The last transaction of a round.
unfoldable pub finish : Worker → Time → Schema.Db → Counts → Round
unfolding expire_unknown
finish s now db n = elim (expire_unknown now (now - pos_part s.max_unknown_hold) s.batch db) [
  | err e ↦ stopped db n (store e)
  | ok db' ↦ record { db = db'; counts = n; error = none }
]

abbrev pub no_counts : Counts
no_counts = record { claimed = 0; reconciled = 0; still_unknown = 0 }

unfoldable pub run_once : Worker → Owner → Time → Time → Schema.Db → Round
unfolding mark_stale_and_claim resolve finish
run_once s owner now at db =
    if misconfigured s
    then stopped db no_counts invalid_worker
    else elim (mark_stale_and_claim now (now - pos_part s.admission_grace) s.worker_id
        (pos_part s.lease) s.batch db) [
          | err e ↦ stopped db no_counts (store e)
          | ok (candidates, db') ↦
              resolve s owner at (finish s now) candidates db'
                (record no_counts { claimed = length candidates })
        ]
