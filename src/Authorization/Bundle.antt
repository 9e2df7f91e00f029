-- ===== src/Authorization/Bundle.antt =====
-- internal/authorization/cache.go: the policy bundle and its validation.
pub mod Validity
use ouf_mcp_server.Prelude.{
  ℕ, String, Bool, true, false, not, ◌&&◌, ◌||◌, Option, none, some, List, [], ◌∷◌, ltb, ◌==◌,
  if◌then◌else◌, length, ◌is◌, ◌differs◌, blank, has,
}
use ouf_mcp_server.Prelude.Int.{ℤ, pos, ltb_ℤ, eqb_ℤ}
use ouf_mcp_server.Orchestration.Domain.{Time}
use ouf_mcp_server.Authorization.Constraints.{GrantConstraints, ConstraintError}
use ouf_mcp_server.Authorization.Constraints

pub record CapabilityDescriptor : Type 0 where
  pub capability_id : String
  pub operation : String
  pub required_scope : String
  pub allowed_actors : List String

pub record Grant : Type 0 where
  pub constraints : Option GrantConstraints
  pub grant_id : String
  pub capability_id : String
  pub tenant_id : String
  pub subject_id : String
  pub service_principal_id : String
  pub organization_id : String
  pub valid_from : Time
  pub valid_until : Time

pub record PolicyBundle : Type 0 where
  pub bundle_id : String
  pub version : ℤ
  pub published_at : Time
  pub capabilities : List CapabilityDescriptor
  pub grants : List Grant

pub record ActivePolicyBundle : Type 0 where
  pub content_hash : String
  pub bundle_id : String
  pub bundle_version : ℤ
  pub activated_at : Time
  pub bundle : PolicyBundle

pub data BundleError : Type 0 where
  bundle_identity_incomplete bundle_cardinality_limit duplicate_capability : BundleError
  capability_incomplete invalid_grant_reference grant_incomplete grant_without_subject : BundleError
  active_metadata_incomplete active_pointer_mismatch : BundleError
  invalid_constraints : ConstraintError → BundleError

-- The first loop of `PolicyBundle.Validate`; `seen` is the keys of its map `caps`. On success it
-- returns them.
pub data Scan : Type 0 where
  seen_all : List String → Scan
  stopped : BundleError → Scan

pub check_capabilities : List String → List CapabilityDescriptor → Scan
unfolding has
check_capabilities seen [] = seen_all seen
check_capabilities seen (c ∷ rest) =
    let next = check_capabilities (c.capability_id ∷ seen) rest in
    if has seen c.capability_id
    then stopped duplicate_capability
    else if blank c.capability_id || blank c.operation || blank c.required_scope
    then stopped capability_incomplete
    else next

abbrev pub constraint_error : Option GrantConstraints → Option ConstraintError
constraint_error none = none
constraint_error (some c) = Constraints.validate c

abbrev pub names_role : Option GrantConstraints → Bool
names_role none = false
names_role (some c) = c.external_role_ref differs ""

-- The body of the second loop, after the reference check.
pub check_grant : Grant → Option BundleError
unfolding Constraints.validate
check_grant g = elim (constraint_error g.constraints) [
  | some e ↦ some (invalid_constraints e)
  | none ↦
      if blank g.grant_id
        || blank g.capability_id
        || blank g.tenant_id
        || g.valid_from == 0
        || g.valid_until == 0
        || not (ltb g.valid_from g.valid_until)
      then some grant_incomplete
      else if blank g.subject_id && blank g.service_principal_id && not (names_role g.constraints)
      then some grant_without_subject
      else none
]

-- The second loop; `seen` is the keys of its map `grants`.
pub check_grants : List String → List String → List Grant → Option BundleError
unfolding has check_grant
check_grants caps seen [] = none
check_grants caps seen (g ∷ rest) =
    let next = check_grants caps (g.grant_id ∷ seen) rest in
    if has seen g.grant_id || not (has caps g.capability_id)
    then some invalid_grant_reference
    else elim (check_grant g) [ some e ↦ some e | none ↦ next ]

abbrev after_capabilities : Scan → List Grant → Option BundleError
after_capabilities (stopped e) grants = some e
after_capabilities (seen_all caps) grants = check_grants caps [] grants

unfoldable pub validate : PolicyBundle → Option BundleError
unfolding check_capabilities check_grants
validate b =
    if blank b.bundle_id || ltb_ℤ b.version (pos 1) || b.published_at == 0
    then some bundle_identity_incomplete
    else if ltb 10000 (length b.capabilities) || ltb 10000 (length b.grants)
    then some bundle_cardinality_limit
    else after_capabilities (check_capabilities [] b.capabilities) b.grants

unfoldable pub validate_active : ActivePolicyBundle → Option BundleError
unfolding validate
validate_active a =
    if blank a.bundle_id || ltb_ℤ a.bundle_version (pos 1) || a.activated_at == 0
    then some active_metadata_incomplete
    else if a.bundle.bundle_id differs a.bundle_id || not (eqb_ℤ a.bundle.version a.bundle_version)
    then some active_pointer_mismatch
    else validate a.bundle
