-- ===== src/Examples/Policies.antt =====
-- A policy bundle with two grants, a caller, and what the policy cache makes of them.
use mathlib.Core.List.Perm
use ouf_mcp_server.Prelude.{
  String, true, none, some, [], ◌∷◌, ◌≡◌, ◌↔◌, refl, sym, ok, ok-injective,
}
use ouf_mcp_server.Prelude.Int.{ℤ, pos}
use ouf_mcp_server.Orchestration.Domain.{
  Identity, ResourceContext, AuthorizationRequest, AuthorizationDecision,
}
use ouf_mcp_server.Authorization.Bundle.{
  CapabilityDescriptor, Grant, PolicyBundle, ActivePolicyBundle, validate,
}
use ouf_mcp_server.Authorization.Bundle.Validity.{IsWellFormed, validate_iff}
use ouf_mcp_server.Authorization.Evaluate.{evaluate, addresses, discloses}
use ouf_mcp_server.Authorization.Evaluate.Decision.{
  question, IsEntitled, IsConfined, evaluate-allowed_iff, evaluate-perm, evaluate-IsConfined,
}
use ouf_mcp_server.Authorization.Cache.{
  CachedSnapshot, Cache, Codec, new_cache, refresh, authorize, default_resource,
}
use ouf_mcp_server.Authorization.Cache.Lineage.{
  KeepsBundle, Reach, here, next, refreshes, Holds, Reach-Holds,
}
use ouf_mcp_server.Authorization.Cache.Decisions.{IsReady, authorize-governed}

abbrev pub alice : Identity
alice = record {
  delegation = "";
  claims = none;
  service_principal_id = "portal";
  principal_id = "alice";
  tenant_id = "acme";
  actor_type = "HUMAN";
  authentication_context_ref = "login";
  issuer = "idp";
  audience = "mcp";
  scopes = "read" ∷ [];
}

abbrev pub anything : ResourceContext
anything = record {
  resource_type = "capability";
  resource_id = "";
  tenant_id = "acme";
  organization_id = "";
  attributes = [];
}

abbrev grant_of : String → String → Grant
grant_of id subject = record {
  constraints = none;
  grant_id = id;
  capability_id = "search";
  tenant_id = "acme";
  subject_id = subject;
  service_principal_id = "";
  organization_id = "";
  valid_from = 10;
  valid_until = 90;
}

abbrev search : CapabilityDescriptor
search = record {
  capability_id = "search";
  operation = "READ";
  required_scope = "read";
  allowed_actors = "HUMAN" ∷ [];
}

abbrev policies : PolicyBundle
policies = record {
  bundle_id = "main";
  version = pos 3;
  published_at = 5;
  capabilities = search ∷ [];
  grants = grant_of "g1" "alice" ∷ grant_of "g2" "bob" ∷ [];
}

abbrev reference : String → ℤ → String → String
reference bundle version capability = bundle

validate_iff_example : (validate policies ≡ none) ↔ IsWellFormed policies
validate_iff_example = validate_iff policies

evaluate-allowed_iff_example :
    ((evaluate reference policies alice anything "search" "READ" 50).allowed ≡ true)
    ↔ IsEntitled policies alice anything "search" "READ" 50
evaluate-allowed_iff_example =
    evaluate-allowed_iff reference policies alice anything "search" "READ" 50

evaluate-perm_example :
    evaluate reference
      (record policies { grants = grant_of "g2" "bob" ∷ grant_of "g1" "alice" ∷ [] })
      alice
      anything
      "search"
      "READ"
      50
    ≡ evaluate reference policies alice anything "search" "READ" 50
evaluate-perm_example =
    evaluate-perm reference policies (grant_of "g2" "bob" ∷ grant_of "g1" "alice" ∷ []) alice
      anything "search" "READ" 50 (Perm.swap (grant_of "g2" "bob") (grant_of "g1" "alice") [])

evaluate-IsConfined_example :
    IsConfined policies alice
      (question alice anything "search" 50)
      (evaluate reference policies alice anything "search" "READ" 50)
unfolding evaluate addresses discloses
evaluate-IsConfined_example =
    evaluate-IsConfined reference policies alice anything "search" "READ" 50 refl

abbrev codec : Codec
codec = record { detach = λ b. ok b; digest = λ b. 7; reference = reference }

codec-KeepsBundle : KeepsBundle codec
codec-KeepsBundle b d h = sym (ok-injective h)

abbrev active_policies : ActivePolicyBundle
active_policies = record {
  content_hash = "0123456789abcdef0123456789abcdef0123456789abcdef0123456789abcdef";
  bundle_id = "main";
  bundle_version = pos 3;
  activated_at = 6;
  bundle = policies;
}

abbrev snapshot : CachedSnapshot
snapshot = record { active_bundle = active_policies; verified_at = 20; digest = 7 }

abbrev primed : Cache
primed = (refresh codec (ok active_policies) 20 [] new_cache).0

abbrev twice : Cache
twice = (refresh codec (ok active_policies) 30 [] primed).0

primed-Reach : Reach codec new_cache primed
primed-Reach = next here (refreshes (ok active_policies) 20 [] new_cache tt)

twice-Reach : Reach codec primed twice
twice-Reach = next here (refreshes (ok active_policies) 30 [] primed tt)

primed-active : primed.active ≡ some snapshot
unfolding refresh new_cache
primed-active = refl

Reach-Holds_example : Holds snapshot twice
Reach-Holds_example = Reach-Holds snapshot twice-Reach primed-active

abbrev request : AuthorizationRequest
request = record {
  identity = alice;
  resource = anything;
  capability_id = "search";
  owner = "catalog";
  operation_class = "READ";
}

abbrev decision : AuthorizationDecision
decision = evaluate reference policies alice anything "search" "READ" 50

authorized : authorize codec 40 40 50 primed request ≡ ok decision
unfolding authorize refresh new_cache evaluate
authorized = refl

decision-allowed : decision.allowed ≡ true
unfolding evaluate addresses discloses
decision-allowed = refl

empty-new_cache : new_cache.active ≡ none
unfolding new_cache
empty-new_cache = refl

authorize-governed_example :
    (r : IsReady 40 40 primed request) × IsWellFormed r.snapshot.active_bundle.bundle
    × IsEntitled r.snapshot.active_bundle.bundle alice
        (default_resource alice anything)
        "search"
        "READ"
        50
authorize-governed_example =
    authorize-governed codec new_cache primed 40 40 50 request decision codec-KeepsBundle
      empty-new_cache primed-Reach authorized decision-allowed
