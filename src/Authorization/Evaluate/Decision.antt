-- ===== src/Authorization/Evaluate/Decision.antt =====
-- When `evaluate` allows, what it then discloses, and what it does not depend on.
use mathlib.Core.List.{Perm}
use ouf_mcp_server.Prelude.{
  String, Bool, true, false, not, ◌&&◌, ◌||◌, none, some, List, [], ◌∷◌, if◌then◌else◌, any, ◌≡◌,
  ◌↔◌, ◌⊎◌, inl, inr, refl, sym, ap, ◌∙◌, arith, ◌is◌, ◌differs◌, blank, has, attribute,
  set_attribute, find_attribute, Bool-cases, Option-cases, any-perm, differs→≡, is→≡,
}
use ouf_mcp_server.Prelude.Int.{ℤ}
use ouf_mcp_server.Orchestration.Domain.{Identity, ResourceContext, AuthorizationDecision, Time}
use ouf_mcp_server.Authorization.Bundle.{CapabilityDescriptor, Grant, PolicyBundle}
use ouf_mcp_server.Authorization.Evaluate.{
  Question, find_descriptor, consider, refusal, evaluate, deny, allow, resource_scope, is_deny,
  lists_label, label, requested_detail, discloses, lists_detail,
}
use ouf_mcp_server.Authorization.Evaluate.Verdicts.{applies, denies, permits, consider-eq-verdict}

abbrev pub question : Identity → ResourceContext → String → Time → Question
question p r capability now = record {
  capability_id = capability;
  principal = p;
  resource = r;
  now = now;
}

-- Who is entitled to a capability under a bundle: no word of the order of grants or of guards.
pub record IsEntitled (b : PolicyBundle) (p : Identity) (r : ResourceContext)
    (capability operation : String) (now : Time) : Type 0 where
  pub tenant_named : blank p.tenant_id ≡ false
  pub tenant_own : p.tenant_id differs r.tenant_id ≡ false
  pub descriptor : CapabilityDescriptor
  pub declared : find_descriptor b.capabilities capability operation ≡ some descriptor
  pub actor_allowed : has descriptor.allowed_actors p.actor_type ≡ true
  pub scope_held : has p.scopes descriptor.required_scope ≡ true
  pub labelled :
      ((attribute r.attributes "requiresDataAccessLabel" is "true")
        && blank (attribute r.attributes "dataAccessLabel"))
      ≡ false
  pub human :
      ((attribute r.attributes "detailLevel" is "SECURITY_SENSITIVE")
        && (p.actor_type differs "HUMAN"))
      ≡ false
  pub not_denied : any (denies (question p r capability now)) b.grants ≡ false
  pub permitted : any (permits (question p r capability now)) b.grants ≡ true

module _ (reference : String → ℤ → String → String) (b : PolicyBundle) (p : Identity)
    (r : ResourceContext) (capability operation : String) (now : Time) where
  evaluate-cases :
      (evaluate reference b p r capability operation now).allowed ≡ true
      → refusal b p r capability operation now ≡ none
  unfolding evaluate deny
  evaluate-cases h = ground arith

  evaluate-none :
      refusal b p r capability operation now ≡ none
      → evaluate reference b p r capability operation now ≡ allow reference b capability r
  unfolding evaluate
  evaluate-none h = rw (h, evaluate)

  refusal_sound :
      refusal b p r capability operation now ≡ none → IsEntitled b p r capability operation now
  unfolding refusal
  refusal_sound h = elim (Option-cases (find_descriptor b.capabilities capability operation)) [
    | inl e ↦ ground arith
    | inr (d, e) ↦ record {
      tenant_named = ground arith;
      tenant_own = ground arith;
      descriptor = d;
      declared = e;
      actor_allowed = ground arith;
      scope_held = ground arith;
      labelled = ground arith;
      human = ground arith;
      not_denied = ground (arith, consider-eq-verdict (question p r capability now) false b.grants);
      permitted = ground (arith, consider-eq-verdict (question p r capability now) false b.grants);
    }
  ]

  refusal_complete :
      IsEntitled b p r capability operation now → refusal b p r capability operation now ≡ none
  unfolding refusal
  refusal_complete e = ground (
    arith,
    consider-eq-verdict (question p r capability now) false b.grants,
    e.tenant_named,
    e.tenant_own,
    e.declared,
    e.actor_allowed,
    e.scope_held,
    e.labelled,
    e.human,
    e.not_denied,
    e.permitted,
  )

-- A decision is an approval exactly when the caller is entitled: the tenant is named and is the
-- resource's, the first descriptor of the capability for the operation admits the actor and a
-- scope held, a required data label is given, security detail is asked by a human only, some
-- grant that applies permits the request, and no grant that applies denies it.
pub evaluate-allowed_iff :
    (reference : String → ℤ → String → String) (b : PolicyBundle) (p : Identity)
    (r : ResourceContext) (capability operation : String) (now : Time)
    → ((evaluate reference b p r capability operation now).allowed ≡ true)
      ↔ IsEntitled b p r capability operation now
unfolding allow
evaluate-allowed_iff reference b p r capability operation now = (
  λ h.
      refusal_sound reference b p r capability operation now
        (evaluate-cases reference b p r capability operation now h),
  λ e.
      rw
        (evaluate-none reference b p r capability operation now
          (refusal_complete reference b p r capability operation now e))
        refl,
)

consider-perm :
    (q : Question) {xs ys : List Grant} → Perm xs ys → consider q false ys ≡ consider q false xs
consider-perm q {xs} {ys} same = rw (
  consider-eq-verdict q false xs,
  consider-eq-verdict q false ys,
  any-perm (denies q) same,
  any-perm (permits q) same,
)

-- The order in which a bundle lists its grants does not change any decision.
pub evaluate-perm :
    (reference : String → ℤ → String → String) (b : PolicyBundle) (grants : List Grant)
    (p : Identity) (r : ResourceContext) (capability operation : String) (now : Time)
    → Perm b.grants grants
    → evaluate reference (record b { grants = grants }) p r capability operation now
      ≡ evaluate reference b p r capability operation now
unfolding evaluate refusal deny allow
evaluate-perm reference b grants p r capability operation now same =
    ground (arith, consider-perm (question p r capability now) same)

-- The two steps below, on plain Booleans.
detail-Bool :
    (asked restricted listed shown : Bool)
    → asked ≡ true
    → restricted ≡ true
    → (shown && not (asked && restricted && not listed)) ≡ true
    → listed ≡ true
detail-Bool asked restricted listed shown a b h = ground arith

any-step :
    (applied denying shown listed rest rest' : Bool)
    → (shown ≡ true → listed ≡ true)
    → (rest ≡ true → rest' ≡ true)
    → ((applied && not denying && shown) || rest) ≡ true
    → (((applied && not denying && shown) && listed) || rest') ≡ true
any-step applied denying shown listed rest rest' f g h = ground arith

discloses-lists :
    (q : Question) (g : Grant)
    → requested_detail q differs "" ≡ true
    → requested_detail q differs "PUBLIC_OPERATIONAL" ≡ true
    → discloses q g ≡ true
    → lists_detail q g.constraints ≡ true
unfolding discloses
discloses-lists q g a b h =
    detail-Bool (requested_detail q differs "") (requested_detail q differs "PUBLIC_OPERATIONAL")
      (lists_detail q g.constraints)
      (not (
        label q differs ""
        && label q differs "OPEN"
        && label q differs "ANONYMOUS"
        && not (lists_label q g.constraints)))
      a b h

-- A grant that permits a detail above the public one lists it.
permits-lists :
    (q : Question) (grants : List Grant)
    → requested_detail q differs "" ≡ true
    → requested_detail q differs "PUBLIC_OPERATIONAL" ≡ true
    → any (permits q) grants ≡ true
    → any (λ g. permits q g && lists_detail q g.constraints) grants ≡ true
permits-lists q [] a b h = h
permits-lists q (g ∷ rest) a b h =
    any-step (applies q g) (is_deny g.constraints) (discloses q g) (lists_detail q g.constraints)
      (any (permits q) rest) (any (λ g. permits q g && lists_detail q g.constraints) rest)
      (discloses-lists q g a b) (permits-lists q rest a b) h

resource_scope-tenant :
    (r : ResourceContext) → find_attribute (resource_scope r) "tenantId" ≡ some r.tenant_id
unfolding resource_scope set_attribute find_attribute
resource_scope-tenant r = ground arith

detail-level :
    (q : Question) (grants : List Grant)
    → any (permits q) grants ≡ true
    → let d = requested_detail q in
      let level = if blank d then "PUBLIC_OPERATIONAL" else d in
      (level ≡ "PUBLIC_OPERATIONAL")
      ⊎ ((level ≡ d) × (any (λ g. permits q g && lists_detail q g.constraints) grants ≡ true))
detail-level q grants h = elim (Bool-cases (blank (requested_detail q))) [
  | inl none_asked ↦ inl (rw none_asked)
  | inr asked ↦ elim (Bool-cases (requested_detail q is "PUBLIC_OPERATIONAL")) [
    | inl public ↦ inl (rw asked (is→≡ _ _ public))
    | inr restricted ↦ inr (rw asked, permits-lists q grants (ap not asked) (ap not restricted) h)
  ]
]

-- A decision within the tenant of the caller, of public detail or of a detail that was permitted.
abbrev pub IsConfined : PolicyBundle → Identity → Question → AuthorizationDecision → Type 0
IsConfined b p q d =
    (find_attribute d.resource_scope "tenantId" ≡ some p.tenant_id)
    × ((d.permitted_detail_level ≡ "PUBLIC_OPERATIONAL")
        ⊎ ((d.permitted_detail_level ≡ requested_detail q)
            × (any (λ g. permits q g && lists_detail q g.constraints) b.grants ≡ true)))

-- An approval is confined to the tenant of the caller, and its detail is the public one unless a
-- grant that permits the request lists the detail asked for.
pub evaluate-IsConfined :
    (reference : String → ℤ → String → String) (b : PolicyBundle) (p : Identity)
    (r : ResourceContext) (capability operation : String) (now : Time)
    → (evaluate reference b p r capability operation now).allowed ≡ true
    → IsConfined b p
        (question p r capability now)
        (evaluate reference b p r capability operation now)
unfolding allow
evaluate-IsConfined reference b p r capability operation now h =
    let e = (evaluate-allowed_iff reference b p r capability operation now).0 h in
    rw
      (evaluate-none reference b p r capability operation now
        (refusal_complete reference b p r capability operation now e))
      (
        resource_scope-tenant r ∙ ap some (sym (differs→≡ _ _ e.tenant_own)),
        detail-level (question p r capability now) b.grants e.permitted,
      )
