-- ===== src/Orchestration/Ports.antt =====
-- The ports of internal/orchestration/service.go and the types of its `Call`. A call asks each port
-- at most once, so a port is a function of its request, and the effects of a call are the list of
-- the requests that it made. The packages that the service imports for JSON, digests and uuids are
-- parameters, and so are the bytes of `SemanticFingerprint`'s digest.
use ouf_mcp_server.Prelude.{ℕ, String, Bool, Option, List, Attributes, Result}
use ouf_mcp_server.Prelude.Int.{ℤ}
use ouf_mcp_server.Orchestration.Domain.{
  Identity, ResourceContext, AuthorizationRequest, AuthorizationDecision, Cost, AdmissionRequest,
  AdmissionDecision, AttemptOutcome, Uuid,
}

-- `UploadStream`, without the bytes that the gateway reads from it.
pub record UploadStream : Type 0 where
  pub has_reader : Bool
  pub size : ℤ
  pub sha256 : String
  pub file_id : String

pub record GatewayRequest : Type 0 where
  pub gateway_binding_ref : String
  pub capability_id : String
  pub owner : String
  pub operation_class : String
  pub arguments : String
  pub identity : Identity
  pub authorization_decision_ref : String
  pub correlation_id : String
  pub idempotency_key : String
  pub attempt_id : Uuid
  pub request_hash : String
  pub max_result_bytes : ℤ
  pub upload : Option UploadStream

pub record Problem : Type 0 where
  pub kind : String
  pub title : String
  pub code : String
  pub detail : String
  pub status : ℤ
  pub retry_after : String

pub record GatewayResponse : Type 0 where
  pub status : ℤ
  pub body : String
  pub backend_request_id : String
  pub problem : Option Problem

pub record AuditEvent : Type 0 where
  pub authorization_decision_ref : String
  pub permitted_detail_level : String
  pub redacted : Bool
  pub event_type : String
  pub manifest_checksum : String
  pub outcome_code : String
  pub identity : Identity
  pub attempt_id : Uuid

pub record Invocation : Type 0 where
  pub authorization_capability_id : String
  pub budget_profile : String
  pub read_position_ref : String
  pub identity : Identity
  pub resource : ResourceContext
  pub capability_id : String
  pub owner : String
  pub operation_class : String
  pub gateway_binding_ref : String
  pub manifest_checksum : String
  pub arguments : String
  pub idempotency_key : String
  pub correlation_id : String
  pub window : ℤ
  pub timeout : ℤ
  pub retry_threshold : ℤ
  pub maximum : Cost
  pub upload : Option UploadStream

-- `Result` of the package.
pub record CallResult : Type 0 where
  pub body : String
  pub problem : Option Problem
  pub attempt_id : Uuid
  pub replay : Bool

pub data CallError : Type 0 where
  unsupported_budget invalid_invocation unauthorized invalid_upload invalid_handoff : CallError
  unreviewed_position invalid_position invalid_fingerprint result_limit invalid_status : CallError
  port : String → CallError

-- What the source of `statusview.Project` decodes: a missing Boolean is `none`.
pub record StatusSource : Type 0 where
  pub module_name : String
  pub status : String
  pub action_required : Option Bool
  pub partial : Option Bool

pub record PublicStatus : Type 0 where
  pub module_name : String
  pub status : String
  pub action_required : Bool
  pub partial : Bool
  pub visibility_class : String
  pub redacted : Bool

-- The packages: encoding/json, crypto/sha256 and github.com/google/uuid.
pub record Packages : Type 0 where
  pub size : String → ℕ
  pub sha256_hex : String → String
  pub unmarshal_strings : String → Option Attributes
  pub unmarshal_status : String → Option StatusSource
  pub marshal_status : PublicStatus → String
  pub marshal_position : String → String → String
  pub parse_uuid : String → Option Uuid

pub record Service : Type 0 where
  pub require_delegation : Bool
  pub authorize : AuthorizationRequest → Result CallError AuthorizationDecision
  pub reserve : AdmissionRequest → Result CallError AdmissionDecision
  pub dispatch : Uuid → String → ℤ → ℕ → Option CallError
  -- A response comes with an error or without.
  pub execute : GatewayRequest → ℤ → GatewayResponse × Option CallError
  pub reconcile : Uuid → Cost → AttemptOutcome → Option CallError
  -- `none` where the service has no audit.
  pub audit : Option (AuditEvent → Option CallError)
  -- `SemanticFingerprint` under the key of the service.
  pub fingerprint : String → String → Option String
  pub packages : Packages

-- A request to a port.
pub data Event : Type 0 where
  authorized : AuthorizationRequest → Event
  reserved : AdmissionRequest → Event
  dispatched : Uuid → String → ℤ → ℕ → Event
  executed : GatewayRequest → ℤ → Event
  reconciled : Uuid → Cost → AttemptOutcome → Event
  audited : AuditEvent → Event

-- The requests of a call, in order, and its answer.
pub record Run : Type 0 where
  pub events : List Event
  pub answer : Result CallError CallResult
