-- ===== src/Authorization/Evaluate.antt =====
-- `evaluate` of internal/authorization/cache.go: the decision for one capability of a bundle.
pub mod Verdicts
pub mod Decision
use ouf_mcp_server.Prelude.{
  ℕ, String, Bool, true, false, not, ◌&&◌, ◌||◌, Option, none, some, List, [], ◌∷◌, ◌++◌, ltb,
  if◌then◌else◌, Attributes, ◌is◌, ◌differs◌, blank, has, find_attribute, attribute, set_attribute,
}
use ouf_mcp_server.Prelude.Int.{ℤ}
use ouf_mcp_server.Orchestration.Domain.{Identity, ResourceContext, AuthorizationDecision, Time}
use ouf_mcp_server.Authorization.Constraints.{GrantConstraints, matches}
use ouf_mcp_server.Authorization.Bundle.{CapabilityDescriptor, Grant, PolicyBundle}

-- The first descriptor of the capability for the operation.
unfoldable pub find_descriptor :
    List CapabilityDescriptor → String → String → Option CapabilityDescriptor
find_descriptor [] capability operation = none
find_descriptor (c ∷ rest) capability operation =
    if c.capability_id is capability && c.operation is operation
    then some c
    else find_descriptor rest capability operation

-- What the loop knows of a request: the label and the detail are read from the attributes.
pub record Question : Type 0 where
  pub capability_id : String
  pub principal : Identity
  pub resource : ResourceContext
  pub now : Time

abbrev pub label : Question → String
label q = attribute q.resource.attributes "dataAccessLabel"

abbrev pub requested_detail : Question → String
requested_detail q = attribute q.resource.attributes "detailLevel"

-- The five `continue`s above the constraints.
unfoldable pub addresses : Question → Grant → Bool
addresses q g =
    g.capability_id is q.capability_id
    && g.tenant_id is q.principal.tenant_id
    && not (ltb q.now g.valid_from)
    && ltb q.now g.valid_until
    && (blank g.organization_id || g.organization_id is q.resource.organization_id)
    && (blank g.subject_id || g.subject_id is q.principal.principal_id)
    && (blank g.service_principal_id || g.service_principal_id is q.principal.service_principal_id)

abbrev pub constraints_match : Question → Option GrantConstraints → Bool
constraints_match q none = true
constraints_match q (some c) = matches c q.principal q.resource q.now

abbrev pub is_deny : Option GrantConstraints → Bool
is_deny none = false
is_deny (some c) = c.effect is "DENY"

abbrev lists_label : Question → Option GrantConstraints → Bool
lists_label q none = false
lists_label q (some c) = has c.allowed_data_labels (label q)

abbrev lists_detail : Question → Option GrantConstraints → Bool
lists_detail q none = false
lists_detail q (some c) = has c.allowed_detail_levels (requested_detail q)

-- The two `continue`s below the constraints.
unfoldable pub discloses : Question → Grant → Bool
unfolding has
discloses q g =
    not (
      label q differs ""
      && label q differs "OPEN"
      && label q differs "ANONYMOUS"
      && not (lists_label q g.constraints))
    && not (
        requested_detail q differs ""
        && requested_detail q differs "PUBLIC_OPERATIONAL"
        && not (lists_detail q g.constraints))

-- How the loop over the grants ends: at a DENY, or with the value of `allow`.
pub data Verdict : Type 0 where
  denied : Verdict
  allows : Bool → Verdict

unfoldable pub consider : Question → Bool → List Grant → Verdict
consider q allow [] = allows allow
consider q allow (g ∷ rest) =
    let skip = consider q allow rest in
    let grant = consider q true rest in
    if not (addresses q g)
    then skip
    else if not (constraints_match q g.constraints)
    then skip
    else if is_deny g.constraints
    then denied
    else if not (discloses q g)
    then skip
    else grant

-- The keys that the scope of a decision copies from the resource.
abbrev copy_attribute : Attributes → String → Attributes → Attributes
copy_attribute from key scope = elim (find_attribute from key) [
  | none ↦ scope
  | some v ↦ set_attribute scope key v
]

unfoldable pub resource_scope : ResourceContext → Attributes
unfolding set_attribute find_attribute
resource_scope r =
    let base : Attributes = ("tenantId", r.tenant_id) ∷ ("resourceType", r.resource_type) ∷ [] in
    let named =
      if r.resource_id differs "" then set_attribute base "resourceId" r.resource_id else base in
    copy_attribute r.attributes "dataAccessLabel" (
      copy_attribute r.attributes "jobRef"
        (copy_attribute r.attributes "sourceRef" (copy_attribute r.attributes "module" named)))

-- `fmt.Sprintf("%s:%d:%s", ...)`; the print of an integer is the standard library's.
module _ (reference : String → ℤ → String → String) where
  unfoldable pub deny : PolicyBundle → String → String → AuthorizationDecision
  deny bundle capability code = record {
    permitted_detail_level = "";
    resource_scope = [];
    allowed = false;
    decision_ref = reference bundle.bundle_id bundle.version capability;
    decision_code = code;
    bundle_id = bundle.bundle_id;
    bundle_version = bundle.version;
  }

  unfoldable pub allow : PolicyBundle → String → ResourceContext → AuthorizationDecision
  unfolding resource_scope
  allow bundle capability r = record {
    permitted_detail_level =
        if blank (attribute r.attributes "detailLevel")
        then "PUBLIC_OPERATIONAL"
        else attribute r.attributes "detailLevel";
    resource_scope = resource_scope r;
    allowed = true;
    decision_ref = reference bundle.bundle_id bundle.version capability;
    decision_code = "ALLOW";
    bundle_id = bundle.bundle_id;
    bundle_version = bundle.version;
  }

-- The code of the refusal, or none: the guards of the source, in its order.
unfoldable pub refusal :
    PolicyBundle → Identity → ResourceContext → String → String → Time → Option String
unfolding find_descriptor consider has
refusal bundle principal resource capability operation now =
    if blank principal.tenant_id || principal.tenant_id differs resource.tenant_id
    then some "TENANT_MISMATCH"
    else elim (find_descriptor bundle.capabilities capability operation) [
      | none ↦ some "CAPABILITY_NOT_DECLARED"
      | some descriptor ↦
          if not (has descriptor.allowed_actors principal.actor_type)
          then some "ACTOR_NOT_ALLOWED"
          else if not (has principal.scopes descriptor.required_scope)
          then some "SCOPE_MISSING"
          else if attribute resource.attributes "requiresDataAccessLabel" is "true"
              && blank (attribute resource.attributes "dataAccessLabel")
          then some "DATA_LABEL_REQUIRED"
          else if attribute resource.attributes "detailLevel" is "SECURITY_SENSITIVE"
              && principal.actor_type differs "HUMAN"
          then some "HUMAN_REQUIRED"
          else elim (consider
              (record {
                capability_id = capability;
                principal = principal;
                resource = resource;
                now = now;
              })
              false bundle.grants) [
                | denied ↦ some "EXPLICIT_DENY"
                | allows permitted ↦ if permitted then none else some "NO_APPLICABLE_GRANT"
              ]
    ]

unfoldable pub evaluate :
    (String → ℤ → String → String)
    → PolicyBundle
    → Identity
    → ResourceContext
    → String
    → String
    → Time
    → AuthorizationDecision
unfolding refusal deny allow
evaluate reference bundle principal resource capability operation now =
    elim (refusal bundle principal resource capability operation now) [
      | some code ↦ deny reference bundle capability code
      | none ↦ allow reference bundle capability resource
    ]
