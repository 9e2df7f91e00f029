-- ===== src/Examples/Calls.antt =====
-- Calls of the orchestration service with ports that always answer.
use ouf_mcp_server.Prelude.{true, false, none, some, List, [], ◌∷◌, ◌≡◌, refl, ok, find_attribute}
use ouf_mcp_server.Prelude.Int.{pos, ◌≤ℤ◌}
use ouf_mcp_server.Orchestration.Domain.{AuthorizationDecision}
use ouf_mcp_server.Orchestration.Ports.{
  GatewayResponse, Invocation, StatusSource, Packages, Service, Event, authorized,
}
use ouf_mcp_server.Orchestration.Service.{
  check, with_profile, authorization_of, body_size, reply_of, call,
}
use ouf_mcp_server.Orchestration.Service.Order.{executes, IsAdmitted, call-governed}
use ouf_mcp_server.Orchestration.Service.Replies.{IsPublicReply, reply_of-limit, reply_of-public}
use ouf_mcp_server.Examples.Policies.{alice}

abbrev healthy : StatusSource
healthy = record {
  module_name = "MCP";
  status = "HEALTHY";
  action_required = some false;
  partial = some false;
}

abbrev packages : Packages
packages = record {
  size = λ s. 2;
  sha256_hex = λ s. "digest";
  unmarshal_strings = λ s. none;
  unmarshal_status = λ s. some healthy;
  marshal_status = λ v. "view";
  marshal_position = λ a p. "position";
  parse_uuid = λ s. some 5;
}

abbrev response : GatewayResponse
response = record { status = pos 200; body = "{}"; backend_request_id = "b"; problem = none }

abbrev allowing : AuthorizationDecision
allowing = record {
  permitted_detail_level = "PUBLIC_OPERATIONAL";
  resource_scope = ("tenantId", "acme") ∷ ("resourceType", "capability") ∷ [];
  allowed = true;
  decision_ref = "main:3:ouf.system.status";
  decision_code = "ALLOW";
  bundle_id = "main";
  bundle_version = pos 3;
}

abbrev service : Service
service = record {
  require_delegation = false;
  authorize = λ r. ok allowing;
  reserve = λ r. ok (record { attempt_id = r.attempt_id; lock_version = 0; replay = false });
  dispatch = λ id backend lease version. none;
  execute = λ r timeout. (response, none);
  reconcile = λ id cost outcome. none;
  audit = some (λ e. none);
  fingerprint = λ capability arguments. some "f";
  packages = packages;
}

abbrev status_call : Invocation
status_call = record {
  authorization_capability_id = "";
  budget_profile = "";
  read_position_ref = "";
  identity = alice;
  resource = record {
    resource_type = "";
    resource_id = "";
    tenant_id = "";
    organization_id = "";
    attributes = [];
  };
  capability_id = "ouf.system.status";
  owner = "mcp";
  operation_class = "READ";
  gateway_binding_ref = "status";
  manifest_checksum = "m1";
  arguments = "{}";
  idempotency_key = "k1";
  correlation_id = "c1";
  window = pos 60000000000;
  timeout = pos 1000;
  retry_threshold = pos 3;
  maximum = record { tool_calls = pos 1; distinct_objects = pos 0; result_bytes = pos 100 };
  upload = none;
}

executed_status : executes (call service 7 "b" status_call).events ≡ true
unfolding executes call find_attribute
executed_status = refl

call-governed_example :
    (check service (with_profile status_call) ≡ none)
    × (d : AuthorizationDecision) × (rest : List Event) × (service.authorize
          (authorization_of (with_profile status_call))
        ≡ ok d)
    × IsAdmitted service (with_profile status_call) 7 "b" d rest
    × ((call service 7 "b" status_call).events
        ≡ authorized (authorization_of (with_profile status_call)) ∷ rest)
call-governed_example = call-governed service 7 "b" status_call executed_status

reply_of-limit_example :
    body_size packages (reply_of packages status_call response none).body ≤ℤ pos 100
unfolding reply_of
reply_of-limit_example = reply_of-limit packages status_call response none refl

reply_of-public_example :
    IsPublicReply packages response (reply_of packages status_call response none)
unfolding reply_of
reply_of-public_example = reply_of-public packages status_call response none refl refl
