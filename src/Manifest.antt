-- ===== src/Manifest.antt =====
-- internal/manifest/manifest.go: the manifest of the capabilities, its check and the tools that it offers.
-- A raw JSON part is its text, empty where it is absent. Parameters: the texts of package strings, the
-- decoding of an object (one field for each key), and `sort.Slice` by the name of the tool.
pub mod Tools
use Prim.Native.String.{len}
use ouf_mcp_server.Prelude.{
  ℕ, suc, ◌+◌, String, Bool, true, false, not, ◌&&◌, ◌||◌, Option, none, some, List, [], ◌∷◌, ltb,
  ◌==◌, if◌then◌else◌, length, any, all, blank, ◌is◌, ◌differs◌, has,
}
use ouf_mcp_server.Operational.Incidents.{Json, string, flag, whole, other, find_field}

pub record Capability : Type 0 where
  pub tool_name : String
  pub capability_id : String
  pub purpose : String
  pub use_when : List String
  pub do_not_use_when : List String
  pub preferred_alternatives : List String
  pub operational_limits : String
  pub result_semantics : String
  pub security_notes : List String
  pub mcp_class : String
  pub owner : String
  pub operation_class : String
  pub publication_state : String
  pub required_authorization : String
  pub gateway_binding_ref : String
  pub base_cost_envelope : String
  pub conditional_cost : String
  pub tool_eligible : Bool
  pub input_schema : String

pub record Snapshot : Type 0 where
  pub version : String
  pub capabilities : List Capability

pub data ManifestError : Type 0 where
  missing_version : ManifestError
  incomplete_fields missing_name duplicate_name human_only : ℕ → ManifestError
  invalid_state invalid_class invalid_binding open_schema forbidden_surface : ℕ → ManifestError

pub record Strings : Type 0 where
  pub trim_space : String → String
  pub to_lower : String → String
  pub contains : String → String → Bool
  pub has_prefix : String → String → Bool
  pub members : String → Option (List (String × Json))
  pub sort_tools : List Capability → List Capability

abbrev none_of : {A : Type 0} → List A → Bool
none_of [] = true
none_of (x ∷ xs) = false

unfoldable pub is_incomplete : Capability → Bool
is_incomplete c =
    blank c.capability_id
    || blank c.purpose
    || none_of c.use_when
    || none_of c.do_not_use_when
    || none_of c.preferred_alternatives
    || blank c.operational_limits
    || blank c.result_semantics
    || none_of c.security_notes
    || blank c.input_schema
    || blank c.owner
    || blank c.operation_class
    || blank c.publication_state
    || blank c.required_authorization
    || blank c.gateway_binding_ref
    || blank c.base_cost_envelope
    || blank c.conditional_cost

abbrev is_text : Option Json → String → Bool
is_text (some (string value)) text = value is text
is_text (some (flag b)) text = false
is_text (some (whole n)) text = false
is_text (some (other e)) text = false
is_text none text = false

abbrev is_false : Option Json → Bool
is_false (some (flag b)) = not b
is_false (some (string value)) = false
is_false (some (whole n)) = false
is_false (some (other e)) = false
is_false none = false

abbrev closed_object : Option (List (String × Json)) → Bool
closed_object none = false
closed_object (some fields) =
    is_text (find_field fields "type") "object"
    && is_false (find_field fields "additionalProperties")

abbrev forbidden : List String
forbidden =
    "sql" ∷ "jpql" ∷ "cypher" ∷ "sparql" ∷ "querylanguage" ∷ "query_language" ∷ "hostname"
    ∷ "baseurl" ∷ []

-- The first guard that holds returns its error.
abbrev pub first_refusal : List (Bool × ManifestError) → Option ManifestError
first_refusal [] = none
first_refusal ((test, e) ∷ rest) = if test then some e else first_refusal rest

abbrev pub or_next : Option ManifestError → Option ManifestError → Option ManifestError
or_next (some e) rest = some e
or_next none rest = rest

abbrev pub saw : Capability → List String → List String
saw c seen = if blank c.tool_name then seen else c.tool_name ∷ seen

abbrev pub is_offered : Capability → Bool
is_offered c =
    c.tool_eligible
    && (c.mcp_class is "MCP_TOOL" || c.mcp_class is "MCP_PROPOSAL_ONLY")
    && c.publication_state is "ACTIVE"

unfoldable pub select_tools : List Capability → List Capability
select_tools [] = []
select_tools (c ∷ rest) = if is_offered c then c ∷ select_tools rest else select_tools rest

module _ (strings : Strings) where
  unfoldable pub is_closed_schema : Capability → Bool
  unfolding find_field
  is_closed_schema c = closed_object (strings.members c.input_schema)

  unfoldable pub offers_query : Capability → Bool
  offers_query c = any (λ word. strings.contains (strings.to_lower c.input_schema) word) forbidden

  abbrev pub guards : ℕ → List String → Capability → List (Bool × ManifestError)
  guards i seen c =
      (is_incomplete c, incomplete_fields i)
      ∷ (c.tool_eligible && blank c.tool_name, missing_name i)
      ∷ (not (blank c.tool_name) && has seen c.tool_name, duplicate_name i)
      ∷ (c.mcp_class is "TRUSTED_HUMAN_ONLY" && c.tool_eligible, human_only i)
      ∷ (
        c.publication_state differs "ACTIVE"
            && c.publication_state differs "INACTIVE"
            && c.publication_state differs "REVOKED",
        invalid_state i,
      )
      ∷ (
        c.operation_class differs "READ"
            && c.operation_class differs "SEARCH"
            && c.operation_class differs "COMMAND",
        invalid_class i,
      )
      ∷ (not (strings.has_prefix c.gateway_binding_ref "capability://"), invalid_binding i)
      ∷ (not (is_closed_schema c), open_schema i)
      ∷ (offers_query c, forbidden_surface i)
      ∷ []

  -- The checks on one capability, in their order.
  unfoldable pub refusal : ℕ → List String → Capability → Option ManifestError
  unfolding is_incomplete is_closed_schema offers_query has
  refusal i seen c = first_refusal (guards i seen c)

  unfoldable pub validate_capabilities : ℕ → List String → List Capability → Option ManifestError
  unfolding refusal
  validate_capabilities i seen [] = none
  validate_capabilities i seen (c ∷ rest) =
      or_next (refusal i seen c) (validate_capabilities (suc i) (saw c seen) rest)

  unfoldable pub validate : Snapshot → Option ManifestError
  unfolding validate_capabilities
  validate s =
      if blank (strings.trim_space s.version)
      then some missing_version
      else validate_capabilities 0 [] s.capabilities

  unfoldable pub tool_eligible : Snapshot → List Capability
  unfolding select_tools
  tool_eligible s = strings.sort_tools (select_tools s.capabilities)
