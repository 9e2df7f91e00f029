-- ===== src/Examples/Cursors.antt =====
-- Two owners with an incident each, a stored cursor over them, and the pages that it gives.

use ouf_mcp_server.Prelude.{
  map, ◌is◌, ◌<◌, String, true, false, none, some, [], ◌∷◌, ◌≡◌, ◌⊎◌, refl, length, blank,
  if◌then◌else◌, rune_count, Result, err, ok, arith,
}
use ouf_mcp_server.Operational.Incidents.{
  string, flag, Item, find_field, incident_value, severity_rank, is_resolved, rank_of, id_of,
  incident_before,
}
use ouf_mcp_server.Operational.Incidents.Order.{
  agrees, IsStrictOrder, incident_before-IsStrictOrder,
}
use ouf_mcp_server.Operational.Query.{CursorError}
use ouf_mcp_server.Operational.Frames.{
  OwnerPosition, CursorFrame, CursorBinding, CursorNode, Codec, cursor_profile,
}
use ouf_mcp_server.Operational.Pages.{OwnerReply, CursorOwnerPage, decode_cursor_owner_page}
use ouf_mcp_server.Operational.Reads.{Owners}
use ouf_mcp_server.Operational.Refill.{Pages}
use ouf_mcp_server.Operational.Compose.{Composed, Sink, compose}
use ouf_mcp_server.Operational.Compose.Advance.{compose-advances}
use ouf_mcp_server.Operational.Serve.{CursorStore, Request, empty_page, page}
use ouf_mcp_server.Operational.Serve.Served.{IsServed, page-IsServed}

abbrev pub digits : String
digits = "0123456789abcdef0123456789abcdef0123456789abcdef0123456789abcdef"

abbrev pub codec : Codec
codec = record {
  members = λ raw. some [];
  unique = λ raw. true;
  encode_texts = λ texts. "{}";
  parse_uuid = λ text. if blank text then none else some 1;
  print_uuid = λ u. "u";
  parse_time = λ text. 0;
  is_time = λ text. true;
  trim_space = λ text. text;
  digest_items = λ items. digits;
  frame_size = λ frame. 500;
  vector_text = λ vector. "{}";
}

abbrev owner_at : String → OwnerPosition
owner_at name = record {
  name = name;
  cursor = "page";
  offset = 0;
  page_index = 0;
  items_digest = digits;
  owner_digest = digits;
  snapshot_ref = "snapshot";
  done = false;
  publication_bookmark = "";
  publication_parent = "";
}

abbrev pub frame : CursorFrame
frame = record {
  profile = cursor_profile;
  filters = "{}";
  owners = owner_at "GATEWAY" ∷ owner_at "INGESTION" ∷ [];
  page_limit = 2;
  page_number = 0;
  self_status = "DEGRADED";
  self_action_required = true;
  self_consumed = false;
  partial = false;
  publication_coverage = false;
  publication_parent = none;
  publication_base = none;
}

abbrev incident : String → String → Item
incident id severity =
    ("incident_id", string id)
    ∷ ("severity", string severity)
    ∷ ("lifecycle_state", string "OPEN")
    ∷ ("action_required", flag false)
    ∷ []

abbrev reply : String → String → OwnerReply
reply id severity = record {
  items = some (some (incident id severity) ∷ []);
  partial = some false;
  truncated = false;
  cursor = "page";
  next_cursor = "";
  snapshot_ref = "snapshot";
  items_digest = digits;
  expires_at = 900;
  snapshot_expires_at = 900;
  priority_profile = "ouf.incident-priority.v1";
  cursor_profile = "ouf.incident-owner-cursor.v1";
  consultation_recorded = false;
  bookmark_profile = "";
  publication_bookmark = "";
  parent_bookmark = "";
  no_publication_progress = none;
}

abbrev world : Owners
world = record {
  call = λ calls producer query. some (
    if producer.name is "GATEWAY" then reply "disk" "WARNING" else reply "queue" "CRITICAL",
    true,
  );
  now = 100;
}

abbrev pub binding : CursorBinding
binding = record {
  principal_id = "alice";
  tenant_id = "acme";
  fingerprint = digits;
  policy_ref = "policy";
  manifest_checksum = digits;
}

abbrev node : CursorNode
node = record {
  token = 7;
  session = 8;
  frame = frame;
  expires_at = 1000;
  next_token = none;
  page_digest = "";
}

abbrev store : CursorStore
store = record {
  load = λ token who. ok node;
  commit = λ token who digest next. ok (some 9);
  put = λ vector parent. ok "bookmark";
}

abbrev request : Request
request = record {
  configured = true;
  binding = ok binding;
  self_state = some (record { status = "DEGRADED"; partial = false; action = true });
  size_of = λ result. 100;
  digest_of = λ result. digits;
}

abbrev answer : Result CursorError Composed → Composed
answer (ok result) = result
answer (err e) = record {
  items = [];
  truncated = false;
  scan_pending = false;
  owner_calls = 0;
  cursor = 0;
  expires_at = 0;
  publication_parent = none;
  publication_bookmark = none;
  next_cursor = none;
}

shown_ids :
    map id_of (answer (page codec store world false request 7)).items
    ≡ "queue" ∷ "mcp-operational-state" ∷ []
unfolding page find_field decode_cursor_owner_page severity_rank is_resolved
shown_ids = refl

abbrev shown_page : String → String → CursorOwnerPage
shown_page id severity = record empty_page {
  items = incident id severity ∷ [];
  cursor = "page";
  snapshot_ref = "snapshot";
}

abbrev pages : Pages
pages name =
    if name is "GATEWAY" then shown_page "disk" "WARNING" else shown_page "queue" "CRITICAL"

page_run :
    page codec store world false request 7 ≡ ok (answer (page codec store world false request 7))
unfolding page find_field decode_cursor_owner_page severity_rank is_resolved
page_run = refl

page-IsServed_example :
    (b : CursorBinding) × (n : CursorNode) × (request.binding ≡ ok b)
    × (store.load 7 b ≡ ok n)
    × IsServed codec world false request n (answer (page codec store world false request 7))
page-IsServed_example = page-IsServed codec store world false request 7 page_run

incident_before-IsStrictOrder_example :
    IsStrictOrder (agrees rune_count) (incident_before rune_count)
incident_before-IsStrictOrder_example = incident_before-IsStrictOrder rune_count

abbrev sink : Sink
sink = record {
  finalize = none;
  size_of = request.size_of;
  digest_of = request.digest_of;
  commit = λ token digest next. ok (some 9);
}

compose_run :
    compose sink codec world node pages 2 ≡ ok (answer (compose sink codec world node pages 2))
unfolding compose find_field is_resolved incident_value rank_of severity_rank
compose_run = refl

more_follows : (answer (compose sink codec world node pages 2)).truncated ≡ true
unfolding compose find_field severity_rank is_resolved incident_value rank_of
more_follows = refl

compose-advances_example :
    ((answer (compose sink codec world node pages 2)).scan_pending ≡ true)
    ⊎ (0 < length (answer (compose sink codec world node pages 2)).items)
compose-advances_example =
    compose-advances sink codec world node pages 2 (omega arith) compose_run more_follows
