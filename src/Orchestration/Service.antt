-- ===== src/Orchestration/Service.antt =====
-- `Service.Call` of internal/orchestration/service.go: from the checks to the audit.
pub mod Order
pub mod Replies
use ouf_mcp_server.Prelude.{
  ℕ, ◌+◌, ◌*◌, ◌^◌, String, Bool, true, false, not, ◌&&◌, ◌||◌, Option, none, some, List, [], ◌∷◌,
  if◌then◌else◌, is_some, length, ◌==◌, ◌is◌, ◌differs◌, blank, Result, ok, err, ◌>>=◌, Attributes,
  attribute, set_attribute,
}
use ouf_mcp_server.Prelude.Int.{ℤ, pos, ◌+ℤ◌, wrap_64, ltb_ℤ, leb_ℤ, eqb_ℤ}
use ouf_mcp_server.Orchestration.Domain.{
  Identity, ResourceContext, AuthorizationRequest, AuthorizationDecision, Cost, AdmissionRequest,
  AdmissionDecision, AttemptOutcome, Uuid, second,
}
use ouf_mcp_server.Orchestration.Budget.{
  admission_window_budget, is_operational_control_read, is_operational_producer_read,
  operational_control_budget_profile,
}
use ouf_mcp_server.Orchestration.Ports.{
  UploadStream, GatewayRequest, Problem, GatewayResponse, AuditEvent, Invocation, CallResult,
  CallError, unsupported_budget, invalid_invocation, unauthorized, invalid_upload, invalid_handoff,
  unreviewed_position, invalid_position, invalid_fingerprint, result_limit, invalid_status,
  Packages, Service, Event, authorized, reserved, dispatched, executed, reconciled, audited, Run,
}
use ouf_mcp_server.Orchestration.Status.{status_capability, public, project}

abbrev pub upload_capability : String
upload_capability = "ouf.managed-source.file.upload"

abbrev pub refused : CallError → Run
refused e = record { events = []; answer = err e }

abbrev pub after : Event → Run → Run
after e run = record { events = e ∷ run.events; answer = run.answer }

-- The profile of an operational read that names none.
abbrev pub with_profile : Invocation → Invocation
with_profile i =
    if blank i.budget_profile && is_operational_control_read i.capability_id i.operation_class
    then record i { budget_profile = operational_control_budget_profile }
    else i

-- What the check of the budget, and the reservation, say about an invocation.
abbrev pub admission_of : Invocation → Uuid → String → String → String → AdmissionRequest
admission_of i id decision_ref hash fingerprint = record {
  budget_profile = i.budget_profile;
  attempt_id = id;
  identity = i.identity;
  capability_id = i.capability_id;
  owner = i.owner;
  operation_class = i.operation_class;
  manifest_checksum = i.manifest_checksum;
  authorization_decision_ref = decision_ref;
  idempotency_key = i.idempotency_key;
  request_hash = hash;
  semantic_fingerprint = fingerprint;
  fingerprint_version = "v1";
  correlation_id = i.correlation_id;
  window = i.window;
  retry_threshold = i.retry_threshold;
  maximum = i.maximum;
}

abbrev pub budget_fails : Invocation → Bool
budget_fails i = elim (admission_window_budget (admission_of i 0 "" "" "")) [
  | ok b ↦ false
  | err e ↦ true
]

abbrev pub incomplete : Invocation → Bool
incomplete i =
    blank i.identity.service_principal_id
    || blank i.identity.principal_id
    || blank i.identity.tenant_id
    || blank i.capability_id
    || blank i.owner
    || blank i.gateway_binding_ref

abbrev pub bad_upload : Invocation → Option UploadStream → Bool
bad_upload i none = false
bad_upload i (some u) =
    i.capability_id differs upload_capability
    || not u.has_reader
    || ltb_ℤ u.size (pos 1)
    || ltb_ℤ (pos (10 * 1024 * 1024)) u.size

-- The arguments of an upload without a stream name one handoff.
abbrev pub bad_arguments : Packages → Option Attributes → Bool
bad_arguments p none = true
bad_arguments p (some m) =
    not (length m == 1) || not (is_some (p.parse_uuid (attribute m "handoffId")))

abbrev pub bad_handoff : Packages → Invocation → Bool
bad_handoff p i =
    i.capability_id is upload_capability
    && not (is_some i.upload)
    && bad_arguments p (p.unmarshal_strings i.arguments)

abbrev pub or_default : String → String → String
or_default s d = if blank s then d else s

abbrev pub is_public : Invocation → Bool
is_public i = i.capability_id is status_capability

abbrev pub detail_raised : ResourceContext → Bool
detail_raised r =
    not (blank (attribute r.attributes "detailLevel"))
    && attribute r.attributes "detailLevel" differs public

-- The resource that is authorized: a status is always the public one.
abbrev pub resource_of : Invocation → ResourceContext
resource_of i = record i.resource {
  tenant_id = or_default i.resource.tenant_id i.identity.tenant_id;
  resource_type = or_default i.resource.resource_type "capability";
  attributes =
      if is_public i
      then set_attribute i.resource.attributes "detailLevel" public
      else i.resource.attributes;
}

abbrev pub authorization_of : Invocation → AuthorizationRequest
authorization_of i = record {
  identity = i.identity;
  resource = resource_of i;
  capability_id = or_default i.authorization_capability_id i.capability_id;
  owner = i.owner;
  operation_class = i.operation_class;
}

-- The checks before the first port, in the order of the source.
unfoldable pub check : Service → Invocation → Option CallError
unfolding admission_window_budget set_attribute
check s i =
    if budget_fails i
    then some unsupported_budget
    else if incomplete i
    then some invalid_invocation
    else if s.require_delegation && blank i.identity.delegation
    then some unauthorized
    else if bad_upload i i.upload
    then some invalid_upload
    else if bad_handoff s.packages i
    then some invalid_handoff
    else if is_public i && detail_raised i.resource
    then some unauthorized
    else none

-- An audit whose error is dropped.
abbrev pub tell : Option (AuditEvent → Option CallError) → AuditEvent → Run → Run
tell none e run = run
tell (some port) e run = after (audited e) run

abbrev pub denied_event : Invocation → AuthorizationDecision → AuditEvent
denied_event i d = record {
  authorization_decision_ref = d.decision_ref;
  permitted_detail_level = "";
  redacted = false;
  event_type = "AUTHORIZATION_DENIED_PRE_ADMISSION";
  manifest_checksum = i.manifest_checksum;
  outcome_code = d.decision_code;
  identity = i.identity;
  attempt_id = 0;
}

abbrev pub is_denied : AuthorizationDecision → Bool
is_denied d = not d.allowed || blank d.decision_ref

-- A public status is answered only under a decision for the public detail of the own tenant.
abbrev pub beyond_public : Invocation → AuthorizationDecision → Bool
beyond_public i d =
    is_public i
    && (d.permitted_detail_level differs public
        || attribute d.resource_scope "tenantId" differs i.identity.tenant_id
        || attribute d.resource_scope "resourceType" differs "capability")

abbrev pub is_position : Option Uuid → Bool
is_position none = false
is_position (some id) = not (id == 0)

-- The arguments of the fingerprint.
unfoldable pub position : Packages → Invocation → Result CallError String
unfolding is_operational_producer_read
position p i =
    if blank i.read_position_ref
    then ok i.arguments
    else if not (is_operational_producer_read i.capability_id i.operation_class)
        || i.budget_profile differs operational_control_budget_profile
    then err unreviewed_position
    else if not (is_position (p.parse_uuid i.read_position_ref))
    then err invalid_position
    else ok (p.marshal_position i.arguments i.read_position_ref)

abbrev pub or_invalid : Option String → Result CallError String
or_invalid none = err invalid_fingerprint
or_invalid (some f) = ok f

unfoldable pub fingerprint_of : Service → Invocation → Result CallError String
unfolding position
fingerprint_of s i = do
  arguments ← position s.packages i
  or_invalid (s.fingerprint i.capability_id arguments)

abbrev pub gateway_request : Service → Invocation → AuthorizationDecision → Uuid → GatewayRequest
gateway_request s i d id = record {
  gateway_binding_ref = i.gateway_binding_ref;
  capability_id = i.capability_id;
  owner = i.owner;
  operation_class = i.operation_class;
  arguments = i.arguments;
  identity = i.identity;
  authorization_decision_ref = d.decision_ref;
  correlation_id = i.correlation_id;
  idempotency_key = i.idempotency_key;
  attempt_id = id;
  request_hash = s.packages.sha256_hex i.arguments;
  max_result_bytes = i.maximum.result_bytes;
  upload = i.upload;
}

abbrev pub is_success : ℤ → Bool
is_success status = leb_ℤ (pos 200) status && ltb_ℤ status (pos 300)

-- What the gateway's answer becomes on its way to the caller.
pub record Reply : Type 0 where
  pub body : String
  pub problem : Option Problem
  pub error : Option CallError
  pub code : String
  pub success : Bool
  pub redacted : Bool

abbrev pub problem_code : Option Problem → String
problem_code none = "UPSTREAM_ERROR"
problem_code (some p) = if blank p.code then "UPSTREAM_ERROR" else p.code

abbrev pub is_clean : GatewayResponse → Option CallError → Bool
is_clean r e = not (is_some e) && not (is_some r.problem) && is_success r.status

abbrev pub body_size : Packages → String → ℤ
body_size p body = pos (p.size body)

abbrev pub first_reply : GatewayResponse → Option CallError → Reply
first_reply r e = record {
  body = r.body;
  problem = r.problem;
  error = e;
  code = problem_code r.problem;
  success = false;
  redacted = false;
}

-- The public view of a clean status that is small enough.
unfoldable pub projected :
    Packages → Invocation → GatewayResponse → Option CallError → Reply → Reply
projected p i r e reply =
    if is_public i && is_clean r e && leb_ℤ (body_size p r.body) i.maximum.result_bytes
    then elim (project (p.unmarshal_status r.body)) [
      | none ↦ record reply {
        body = "";
        error = some invalid_status;
        code = "INVALID_PUBLIC_STATUS";
      }
      | some view ↦ record reply { body = p.marshal_status view; redacted = true }
    ]
    else reply

abbrev pub status_code : ℤ → String
status_code status =
    if eqb_ℤ status (pos 401) || eqb_ℤ status (pos 403)
    then "NOT_AUTHORIZED"
    else "STATUS_UNAVAILABLE"

abbrev pub is_failed : GatewayResponse → Bool
is_failed r = is_some r.problem || not (is_success r.status)

-- A public status that failed says no more than its code.
abbrev pub hidden : Invocation → GatewayResponse → Reply → Reply
hidden i r reply =
    if is_public i && is_failed r
    then record reply {
      body = "";
      problem = some (record {
        kind = "";
        title = status_code r.status;
        code = status_code r.status;
        detail = "";
        status = r.status;
        retry_after = "";
      });
    }
    else reply

abbrev pub succeeded : GatewayResponse → Reply → Reply
succeeded r reply =
    if not (is_some reply.error) && not (is_some reply.problem) && is_success r.status
    then record reply { success = true; code = "SUCCEEDED" }
    else reply

abbrev pub limited : Packages → Invocation → GatewayResponse → Reply → Reply
limited p i r reply =
    if ltb_ℤ i.maximum.result_bytes (body_size p r.body)
      || ltb_ℤ i.maximum.result_bytes (body_size p reply.body)
    then record reply { error = some result_limit; code = "RESULT_LIMIT_EXCEEDED"; success = false }
    else reply

unfoldable pub reply_of : Packages → Invocation → GatewayResponse → Option CallError → Reply
unfolding projected
reply_of p i r e = limited p i r (succeeded r (hidden i r (projected p i r e (first_reply r e))))

abbrev pub actual_cost : Packages → GatewayResponse → Cost
actual_cost p r = record {
  tool_calls = pos 1;
  distinct_objects = pos 0;
  result_bytes = body_size p r.body;
}

abbrev pub reconciled_event : Invocation → AuthorizationDecision → Uuid → Reply → AuditEvent
reconciled_event i d id reply = record {
  authorization_decision_ref = d.decision_ref;
  permitted_detail_level = d.permitted_detail_level;
  redacted = reply.redacted;
  event_type = "TOOL_ATTEMPT_RECONCILED";
  manifest_checksum = i.manifest_checksum;
  outcome_code = reply.code;
  identity = i.identity;
  attempt_id = id;
}

abbrev pub final_answer : Reply → Uuid → Run
final_answer reply id = elim reply.error [
  | some e ↦ refused e
  | none ↦ record {
    events = [];
    answer =
        ok (record { body = reply.body; problem = reply.problem; attempt_id = id; replay = false });
  }
]

abbrev pub unless : Option CallError → Run → Run
unless (some e) run = refused e
unless none run = run

-- The last audit, whose error ends the call.
abbrev pub close : Option (AuditEvent → Option CallError) → AuditEvent → Run → Run
close none e run = run
close (some port) e run = after (audited e) (unless (port e) run)

-- After the gateway has answered: the reconciliation and the audit.
unfoldable pub complete :
    Service
    → Invocation
    → AuthorizationDecision
    → Uuid
    → String
    → GatewayResponse × Option CallError
    → Run
unfolding reply_of
complete s i d id backend (r, e) =
    let reply = reply_of s.packages i r e in
    let outcome : AttemptOutcome = record {
      code = reply.code;
      success = reply.success;
      backend_request_id = or_default r.backend_request_id backend;
    } in
    after (reconciled id (actual_cost s.packages r) outcome) (
      unless (s.reconcile id (actual_cost s.packages r) outcome)
        (close s.audit (reconciled_event i d id reply) (final_answer reply id)))

-- After the reservation: a replay answers at once, a new attempt is dispatched and executed.
unfoldable pub perform :
    Service → Invocation → AuthorizationDecision → String → AdmissionDecision → Run
unfolding complete
perform s i d backend admitted =
    if admitted.replay
    then record {
      events = [];
      answer =
          ok
            (record { body = ""; problem = none; attempt_id = admitted.attempt_id; replay = true });
    }
    else after
        (dispatched admitted.attempt_id backend (wrap_64 (i.timeout +ℤ pos second))
          admitted.lock_version)
        (unless
          (s.dispatch admitted.attempt_id backend (wrap_64 (i.timeout +ℤ pos second))
            admitted.lock_version)
          (after (executed (gateway_request s i d admitted.attempt_id) i.timeout) (
            complete s i d admitted.attempt_id backend
              (s.execute (gateway_request s i d admitted.attempt_id) i.timeout))))

-- After the decision: the denials, the fingerprint and the reservation.
unfoldable pub admit : Service → Invocation → Uuid → String → AuthorizationDecision → Run
unfolding fingerprint_of perform
admit s i id backend d =
    if is_denied d
    then tell s.audit (denied_event i d) (refused unauthorized)
    else if beyond_public i d
    then refused unauthorized
    else elim (fingerprint_of s i) [
      | err e ↦ refused e
      | ok f ↦
          let request = admission_of i id d.decision_ref (s.packages.sha256_hex i.arguments) f in
          after (reserved request) (elim (s.reserve request) [
            | err e ↦ refused e
            | ok admitted ↦ perform s i d backend admitted
          ])
    ]

-- `id` and `backend` are the two new uuids of the call.
unfoldable pub call : Service → Uuid → String → Invocation → Run
unfolding is_operational_control_read check set_attribute admit
call s id backend invocation =
    let i = with_profile invocation in
    elim (check s i) [
      | some e ↦ refused e
      | none ↦ after (authorized (authorization_of i)) (elim (s.authorize (authorization_of i)) [
        | err e ↦ refused e
        | ok d ↦ admit s i id backend d
      ])
    ]
