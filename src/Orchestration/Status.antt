-- ===== src/Orchestration/Status.antt =====
-- `Project` of internal/statusview/public.go, between the decoding and the encoding of its JSON.
use ouf_mcp_server.Prelude.{
  String, Bool, true, not, ◌||◌, Option, none, some, if◌then◌else◌, ◌is◌, ◌differs◌,
}
use ouf_mcp_server.Orchestration.Ports.{StatusSource, PublicStatus}

abbrev pub status_capability : String
status_capability = "ouf.system.status"

abbrev pub public : String
public = "PUBLIC_OPERATIONAL"

abbrev pub is_status : String → Bool
is_status s = s is "HEALTHY" || s is "RECOVERING" || s is "DEGRADED"

abbrev pub public_view : StatusSource → Bool → Bool → PublicStatus
public_view source action_required partial = record {
  module_name = source.module_name;
  status = source.status;
  action_required = action_required;
  partial = partial;
  visibility_class = public;
  redacted = true;
}

abbrev pub view_of : StatusSource → Option Bool → Option Bool → Option PublicStatus
view_of source (some a) (some p) =
    if source.module_name differs "MCP" || not (is_status source.status)
    then none
    else some (public_view source a p)
view_of source _ _ = none

abbrev pub project : Option StatusSource → Option PublicStatus
project none = none
project (some source) = view_of source source.action_required source.partial
