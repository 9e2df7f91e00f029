-- ===== src/Operational/Incidents.antt =====
-- The incidents of internal/operational/aggregator.go and the order in which they are shown.
-- A decoded JSON value is a text, a flag, an integer or another value by its encoding; a decoded object is an
-- association list. `time.Parse` is the parameter `parse_time`: the number of nanoseconds since the
-- earliest instant that RFC 3339 can write, and that of Go's zero time where the text is no time.
pub mod Order
use ouf_mcp_server.Prelude.{
  ℕ, String, Bool, true, false, not, ◌&&◌, ◌||◌, Option, none, some, List, [], ◌∷◌, ltb, ◌==◌,
  if◌then◌else◌, blank, ◌is◌, precedes,
}
use ouf_mcp_server.Prelude.Int.{ℤ}
use ouf_mcp_server.Orchestration.Domain.{Time}

pub data Json : Type 0 where
  string : String → Json
  flag : Bool → Json
  whole : ℤ → Json
  other : String → Json

abbrev pub Item : Type 0
Item = List (String × Json)

unfoldable pub find_field : Item → String → Option Json
find_field [] key = none
find_field ((k, v) ∷ rest) key = if k is key then some v else find_field rest key

abbrev pub string_value : Option Json → String
string_value (some (string s)) = s
string_value (some (flag b)) = ""
string_value (some (whole n)) = ""
string_value (some (other e)) = ""
string_value none = ""

abbrev pub flag_value : Option Json → Bool
flag_value (some (flag b)) = b
flag_value (some (string s)) = false
flag_value (some (whole n)) = false
flag_value (some (other e)) = false
flag_value none = false

abbrev pub or_else : Option Json → Option Json → Option Json
or_else (some v) camel = some v
or_else none camel = camel

unfoldable pub incident_value : Item → String → String → Option Json
incident_value item snake camel = or_else (find_field item snake) (find_field item camel)

abbrev pub incident_field : Item → String → String → String
incident_field item snake camel = string_value (incident_value item snake camel)

unfoldable pub severity_rank : String → ℕ
severity_rank value =
    if value is "CRITICAL"
    then 4
    else if value is "ERROR"
    then 3
    else if value is "WARNING"
    then 2
    else if value is "INFO"
    then 1
    else 0

abbrev pub state_of : Item → String
state_of item = incident_field item "lifecycle_state" "lifecycleState"

unfoldable pub is_resolved : Item → Bool
is_resolved item = state_of item is "RESOLVED"

unfoldable pub rank_of : Item → ℕ
rank_of item = severity_rank (string_value (find_field item "severity"))

unfoldable pub needs_action : Item → Bool
needs_action item = flag_value (incident_value item "action_required" "actionRequired")

unfoldable pub module_of : Item → String
module_of item = string_value (find_field item "module")

unfoldable pub id_of : Item → String
id_of item = incident_field item "incident_id" "incidentId"

abbrev first_text : String → String → String
first_text value fallback = if blank value then fallback else value

unfoldable pub incident_time : (String → Time) → Item → Time
incident_time parse_time item = parse_time (
    first_text (incident_field item "last_seen_at" "lastSeenAt")
      (incident_field item "first_seen_at" "firstSeenAt"))

abbrev pub agree : Bool → Bool → Bool
agree true b = b
agree false b = not b

unfoldable pub incident_before : (String → Time) → Item → Item → Bool
incident_before parse_time a b =
    if not (agree (is_resolved a) (is_resolved b))
    then not (is_resolved a)
    else if not (rank_of a == rank_of b)
    then ltb (rank_of b) (rank_of a)
    else if not (agree (needs_action a) (needs_action b))
    then needs_action a
    else if not (incident_time parse_time a == incident_time parse_time b)
    then ltb (incident_time parse_time b) (incident_time parse_time a)
    else if not (module_of a is module_of b)
    then precedes (module_of a) (module_of b)
    else precedes (id_of a) (id_of b)

abbrev pub valid_status : String → Bool
valid_status status = status is "HEALTHY" || status is "RECOVERING" || status is "DEGRADED"

abbrev pub map_status_lifecycle : String → String
map_status_lifecycle status = if status is "RECOVERING" then "RECOVERING" else "OPEN"

abbrev pub map_status_severity : String → String
map_status_severity status = if status is "DEGRADED" then "ERROR" else "WARNING"
