-- ===== src/Authorization/Constraints.antt =====
-- internal/authorization/constraints.go: the conditions that a grant carries.
-- `UnmarshalJSON` is not here: decoding is the codec's, and re-validation is `validate`.
use ouf_mcp_server.Prelude.{
  String, Bool, true, false, not, ◌&&◌, ◌||◌, Option, none, some, List, ltb, ◌==◌, if◌then◌else◌,
  length, all, Attributes, ◌is◌, ◌differs◌, has, find_attribute, attribute,
}
use ouf_mcp_server.Prelude.Int.{ℤ, pos, ltb_ℤ, ◌+ℤ◌, ◌*ℤ◌, wrap_64}
use ouf_mcp_server.Orchestration.Domain.{IdentityClaims, Identity, ResourceContext, Time, second}

pub record GrantConstraints : Type 0 where
  pub effect : String
  pub external_role_ref : String
  pub resource_type : String
  pub resource_id : String
  pub resource_attributes : Attributes
  pub allowed_data_labels : List String
  pub allowed_detail_levels : List String
  pub required_acr : String
  pub required_amr : List String
  pub max_authentication_age_seconds : Option ℤ

pub data ConstraintError : Type 0 where
  invalid_grant_effect policy_constraints_limit authentication_freshness_limit : ConstraintError

abbrev age_out_of_range : Option ℤ → Bool
age_out_of_range none = false
age_out_of_range (some age) = ltb_ℤ age (pos 1) || ltb_ℤ (pos 86400) age

-- `none` is Go's nil error.
unfoldable pub validate : GrantConstraints → Option ConstraintError
validate c =
    if c.effect differs "" && c.effect differs "ALLOW" && c.effect differs "DENY"
    then some invalid_grant_effect
    else if ltb 64 (length c.resource_attributes)
        || ltb 64 (length c.allowed_data_labels)
        || ltb 16 (length c.allowed_detail_levels)
        || ltb 32 (length c.required_amr)
    then some policy_constraints_limit
    else if age_out_of_range c.max_authentication_age_seconds
    then some authentication_freshness_limit
    else none

-- `claims == nil || !contains(claims.ExternalRoleRefs, role)`, negated.
abbrev holds_role : Option IdentityClaims → String → Bool
holds_role none role = false
holds_role (some claims) role = has claims.external_role_refs role

abbrev holds_acr : Option IdentityClaims → String → Bool
holds_acr none acr = false
holds_acr (some claims) acr = claims.acr is acr

abbrev holds_amr : Option IdentityClaims → String → Bool
holds_amr none amr = false
holds_amr (some claims) amr = has claims.amr amr

abbrev attribute_is : Option String → String → Bool
attribute_is none v = false
attribute_is (some actual) v = actual is v

abbrev attributes_match : Attributes → Attributes → Bool
attributes_match required actual = all (λ p. attribute_is (find_attribute actual p.0) p.1) required

-- The sum of a time and a duration may lie before the zero time, so it is an integer here.
abbrev fresh_at : Option IdentityClaims → Option ℤ → Time → Bool
fresh_at claims none now = true
fresh_at none (some age) now = false
fresh_at (some claims) (some age) now =
    not (claims.authenticated_at == 0)
    && not (ltb now claims.authenticated_at)
    && ltb_ℤ (pos now) (pos claims.authenticated_at +ℤ wrap_64 (age *ℤ pos second))

unfoldable pub matches : GrantConstraints → Identity → ResourceContext → Time → Bool
unfolding has find_attribute ◌+ℤ◌ ◌*ℤ◌ wrap_64
matches c p r now =
    if c.external_role_ref differs "" && not (holds_role p.claims c.external_role_ref)
    then false
    else if c.resource_type differs "" && c.resource_type differs r.resource_type
    then false
    else if c.resource_id differs "" && c.resource_id differs r.resource_id
    then false
    else if not (attributes_match c.resource_attributes r.attributes)
    then false
    else if ltb 0 (length c.allowed_data_labels)
        && not (has c.allowed_data_labels (attribute r.attributes "dataAccessLabel"))
    then false
    else if ltb 0 (length c.allowed_detail_levels)
        && not (has c.allowed_detail_levels (attribute r.attributes "detailLevel"))
    then false
    else if c.required_acr differs "" && not (holds_acr p.claims c.required_acr)
    then false
    else if not (all (λ amr. holds_amr p.claims amr) c.required_amr)
    then false
    else fresh_at p.claims c.max_authentication_age_seconds now
