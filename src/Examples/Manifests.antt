-- ===== src/Examples/Manifests.antt =====
-- A header with two roles, and a manifest with one tool.
use mathlib.Core.List.Perm
use ouf_mcp_server.Prelude.{true, false, none, some, [], ◌∷◌, ◌≡◌, refl, all, distinct, ok}
use ouf_mcp_server.Operational.Incidents.{string, flag}
use ouf_mcp_server.Claims.{Headers, Spacing, claims_of, read}
use ouf_mcp_server.Claims.Distinct.{IsRead, read-IsRead}
use ouf_mcp_server.Manifest.{Capability, Snapshot, Strings, validate, tool_eligible}
use ouf_mcp_server.Manifest.Tools.{is_published, tool_names, tool_eligible-is_published}

abbrev spacing : Spacing
spacing = record { fields = λ raw. "auditor" ∷ "operator" ∷ []; join = λ roles. "auditor operator" }

abbrev headers : Headers
headers = record {
  gateway_verified = "true";
  values = "auditor operator" ∷ [];
  context_ref = "login";
}

read_run : read spacing headers ≡ ok (claims_of headers ("auditor" ∷ "operator" ∷ []))
unfolding read
read_run = refl

read-IsRead_example : IsRead spacing headers (claims_of headers ("auditor" ∷ "operator" ∷ []))
read-IsRead_example = read-IsRead spacing headers read_run

abbrev tool : Capability
tool = record {
  tool_name = "list_incidents";
  capability_id = "ouf.operations.incidents";
  purpose = "List incidents.";
  use_when = "asked" ∷ [];
  do_not_use_when = "never" ∷ [];
  preferred_alternatives = "none" ∷ [];
  operational_limits = "{}";
  result_semantics = "incidents";
  security_notes = "public" ∷ [];
  mcp_class = "MCP_TOOL";
  owner = "mcp";
  operation_class = "READ";
  publication_state = "ACTIVE";
  required_authorization = "read";
  gateway_binding_ref = "capability://ouf.operations.incidents";
  base_cost_envelope = "{}";
  conditional_cost = "{}";
  tool_eligible = true;
  input_schema = "{}";
}

abbrev retired : Capability
retired = record tool { tool_name = "old"; publication_state = "REVOKED" }

abbrev manifest : Snapshot
manifest = record { version = "1"; capabilities = tool ∷ retired ∷ [] }

abbrev strings : Strings
strings = record {
  trim_space = λ text. text;
  to_lower = λ text. text;
  contains = λ text word. false;
  has_prefix = λ text prefix. true;
  members = λ raw. some (("type", string "object") ∷ ("additionalProperties", flag false) ∷ []);
  sort_tools = λ tools. tools;
}

manifest_valid : validate strings manifest ≡ none
unfolding validate
manifest_valid = refl

one_tool : tool_names (tool_eligible strings manifest) ≡ "list_incidents" ∷ []
unfolding tool_eligible
one_tool = refl

tool_eligible-is_published_example :
    (all (is_published strings) (tool_eligible strings manifest) ≡ true)
    × (distinct (tool_names (tool_eligible strings manifest)) ≡ true)
tool_eligible-is_published_example =
    tool_eligible-is_published strings manifest (λ l. Perm.refl l) manifest_valid
