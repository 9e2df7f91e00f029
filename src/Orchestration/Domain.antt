-- ===== src/Orchestration/Domain.antt =====
-- The value types of internal/orchestration/service.go.
-- A time is a number of nanoseconds since Go's zero time, so `IsZero` is a test against 0 and a
-- time before year 1 is not represented. A `*T` that may be nil is an `Option T`. A uuid is a
-- number whose 0 is `uuid.Nil`.
use ouf_mcp_server.Prelude.{ℕ, ◌*◌, String, Bool, Option, List, Attributes}
use ouf_mcp_server.Prelude.Int.{ℤ}

abbrev pub Time : Type 0
Time = ℕ

abbrev pub Duration : Type 0
Duration = ℕ

abbrev pub Uuid : Type 0
Uuid = ℕ

abbrev pub second : Duration
second = 1000000000

abbrev pub minute : Duration
minute = 60 * second

pub record IdentityClaims : Type 0 where
  pub external_role_refs : List String
  pub acr : String
  pub amr : List String
  pub authenticated_at : Time

pub record Identity : Type 0 where
  pub delegation : String
  pub claims : Option IdentityClaims
  pub service_principal_id : String
  pub principal_id : String
  pub tenant_id : String
  pub actor_type : String
  pub authentication_context_ref : String
  pub issuer : String
  pub audience : String
  pub scopes : List String

pub record ResourceContext : Type 0 where
  pub resource_type : String
  pub resource_id : String
  pub tenant_id : String
  pub organization_id : String
  pub attributes : Attributes

pub record AuthorizationRequest : Type 0 where
  pub identity : Identity
  pub resource : ResourceContext
  pub capability_id : String
  pub owner : String
  pub operation_class : String

pub record AuthorizationDecision : Type 0 where
  pub permitted_detail_level : String
  pub resource_scope : Attributes
  pub allowed : Bool
  pub decision_ref : String
  pub decision_code : String
  pub bundle_id : String
  pub bundle_version : ℤ

pub record Cost : Type 0 where
  pub tool_calls : ℤ
  pub distinct_objects : ℤ
  pub result_bytes : ℤ

pub record AdmissionRequest : Type 0 where
  pub budget_profile : String
  pub attempt_id : Uuid
  pub identity : Identity
  pub capability_id : String
  pub owner : String
  pub operation_class : String
  pub manifest_checksum : String
  pub authorization_decision_ref : String
  pub idempotency_key : String
  pub request_hash : String
  pub semantic_fingerprint : String
  pub fingerprint_version : String
  pub correlation_id : String
  pub window : ℤ
  pub retry_threshold : ℤ
  pub maximum : Cost

pub record AdmissionDecision : Type 0 where
  pub attempt_id : Uuid
  pub lock_version : ℕ
  pub replay : Bool

pub record AttemptOutcome : Type 0 where
  pub code : String
  pub success : Bool
  pub backend_request_id : String
