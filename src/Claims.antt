-- ===== src/Claims.antt =====
-- internal/trustedclaims/roles.go: the claims that the gateway reconstructed, read from its headers.
-- Parameters: `strings.Fields` and `strings.Join` with a space. `values` are the values of the header
-- with the roles; `Get` gives the first of them, or the empty text.
pub mod Roles
pub mod Distinct
use Prim.Native.String.{len}
use ouf_mcp_server.Prelude.{
  ℕ, String, Bool, true, false, not, ◌&&◌, ◌||◌, Option, none, some, List, [], ◌∷◌, ltb, ◌==◌,
  if◌then◌else◌, length, ◌is◌, ◌differs◌, precedes, Result, err, ok,
}
use ouf_mcp_server.Orchestration.Domain.{IdentityClaims}
use ouf_mcp_server.Operational.Pages.{is_sorted}
use ouf_mcp_server.Claims.Roles.{role_id}

pub data ClaimsError : Type 0 where
  untrusted_context duplicate_context oversized_context : ClaimsError
  invalid_context invalid_reference : ClaimsError

pub record Headers : Type 0 where
  pub gateway_verified : String
  pub values : List String
  pub context_ref : String

pub record Spacing : Type 0 where
  pub fields : String → List String
  pub join : List String → String

abbrev pub first_value : List String → String
first_value [] = ""
first_value (value ∷ rest) = value

abbrev pub repeats : Option String → String → Bool
repeats none role = false
repeats (some previous) role = previous is role

-- The loop over the roles, with the one before.
unfoldable pub valid_roles : Option String → List String → Bool
unfolding role_id
valid_roles previous [] = true
valid_roles previous (role ∷ rest) =
    not (not (role_id role) || repeats previous role) && valid_roles (some role) rest

abbrev pub claims_of : Headers → List String → IdentityClaims
claims_of headers roles = record {
  external_role_refs = roles;
  acr = headers.context_ref;
  amr = [];
  authenticated_at = 0;
}

abbrev pub read_roles : Spacing → Headers → String → List String → Result ClaimsError IdentityClaims
read_roles spacing headers raw roles =
    if ltb 32 (length roles) || spacing.join roles differs raw || not (is_sorted precedes roles)
    then err invalid_context
    else if not (valid_roles none roles)
    then err invalid_reference
    else ok (claims_of headers roles)

unfoldable pub read : Spacing → Headers → Result ClaimsError IdentityClaims
unfolding valid_roles is_sorted precedes
read spacing headers =
    if headers.gateway_verified differs "true"
    then err untrusted_context
    else if ltb 1 (length headers.values)
    then err duplicate_context
    else if ltb 4096 (len (first_value headers.values))
    then err oversized_context
    else read_roles spacing headers (first_value headers.values)
        (spacing.fields (first_value headers.values))
