-- ===== src/Authorization/Cache/Decisions.antt =====
-- What a decision of the cache rests on.
use ouf_mcp_server.Prelude.{
  ◌+◌, ◌<◌, ◌≤◌, true, false, ◌&&◌, none, some, ◌≡◌, arith, ok, Option-cases, inl, inr, ◌is◌, blank,
  ||-false, ltb→lt, ltb→ge, not-false, else-ok, ok-injective, sym, subst,
}
use ouf_mcp_server.Orchestration.Domain.{
  Identity, AuthorizationRequest, AuthorizationDecision, Time,
}
use ouf_mcp_server.Authorization.Bundle.{ActivePolicyBundle, validate_active}
use ouf_mcp_server.Authorization.Bundle.Validity.{IsWellFormed, validate_iff}
use ouf_mcp_server.Authorization.Evaluate.{evaluate}
use ouf_mcp_server.Authorization.Evaluate.Decision.{IsEntitled, evaluate-allowed_iff}
use ouf_mcp_server.Authorization.Cache.{
  CachedSnapshot, Cache, Codec, authorize, decide_on, incomplete, default_resource,
}
use ouf_mcp_server.Authorization.Cache.Lineage.{IsTrusted, KeepsBundle, Reach, Reach-IsTrusted}

-- The caller has a name, a tenant, a kind, an authentication, an issuer and an audience.
abbrev pub IsIdentified : Identity → Type 0
IsIdentified p =
    (blank p.principal_id ≡ false)
    × (blank p.tenant_id ≡ false)
    × (blank p.actor_type ≡ false)
    × (blank p.authentication_context_ref ≡ false)
    × (blank p.issuer ≡ false)
    × (blank p.audience ≡ false)

incomplete-IsIdentified : (p : Identity) → incomplete p ≡ false → IsIdentified p
incomplete-IsIdentified p h =
    let (abcde, f) = ||-false _ _ h in
    let (abcd, e) = ||-false _ _ abcde in
    let (abc, d) = ||-false _ _ abcd in
    let (ab, c) = ||-false _ _ abc in let (a, b) = ||-false _ _ ab in (a, b, c, d, e, f)

-- The cache is fit to decide a request: it holds a snapshot, verified no later than the first
-- reading of the clock and not too long before the second, and the caller is identified.
pub record IsReady (before during : Time) (c : Cache) (request : AuthorizationRequest)
    : Type 0 where
  pub snapshot : CachedSnapshot
  pub held : c.active ≡ some snapshot
  pub verified : snapshot.verified_at ≤ before
  pub recent : during < snapshot.verified_at + c.max_staleness
  pub identified : IsIdentified request.identity
  pub service_named :
      ((request.identity.actor_type is "SERVICE") && blank request.identity.service_principal_id)
      ≡ false

abbrev pub decide : Codec → Time → AuthorizationRequest → CachedSnapshot → AuthorizationDecision
decide codec at request s =
    evaluate codec.reference s.active_bundle.bundle request.identity
      (default_resource request.identity request.resource) request.capability_id
      request.operation_class at

module _ (codec : Codec) (before during at : Time) (c : Cache) (request : AuthorizationRequest)
    (d : AuthorizationDecision) where
  -- The guards below the load, passed one by one.
  decide_on_sound :
      (s : CachedSnapshot)
      → c.active ≡ some s
      → decide_on codec before during at c.max_staleness s request ≡ ok d
      → (r : IsReady before during c request) × (d ≡ decide codec at request r.snapshot)
  unfolding decide_on
  decide_on_sound s e h =
      let (current, h1) = else-ok _ _ _ h in
      let (identified, h2) = else-ok _ _ _ h1 in
      let (named, h3) = else-ok _ _ _ h2 in
      (
        record {
          snapshot = s;
          held = e;
          verified = ltb→ge _ _ (||-false _ _ current).0;
          recent = ltb→lt _ _ (not-false _ (||-false _ _ current).1);
          identified = incomplete-IsIdentified request.identity identified;
          service_named = named;
        },
        sym (ok-injective h3),
      )

  authorize_sound :
      authorize codec before during at c request ≡ ok d
      → (r : IsReady before during c request) × (d ≡ decide codec at request r.snapshot)
  unfolding authorize
  authorize_sound h = elim (Option-cases c.active) [
    | inl e ↦ cc (rw (e, authorize) at h)
    | inr (s, e) ↦ decide_on_sound s e (rw (e, authorize) at h)
  ]

validated-IsWellFormed : (a : ActivePolicyBundle) → validate_active a ≡ none → IsWellFormed a.bundle
unfolding validate_active
validated-IsWellFormed a h = (validate_iff a.bundle).0 (ground arith)

-- Once a cache that began empty approves a request, the bundle that it decided on is well formed,
-- its verification is recent, and the caller is entitled to the capability under it.
pub authorize-governed :
    (codec : Codec) (start c : Cache) (before during at : Time) (request : AuthorizationRequest)
    (d : AuthorizationDecision)
    → KeepsBundle codec
    → start.active ≡ none
    → Reach codec start c
    → authorize codec before during at c request ≡ ok d
    → d.allowed ≡ true
    → (r : IsReady before during c request) × IsWellFormed r.snapshot.active_bundle.bundle
      × IsEntitled r.snapshot.active_bundle.bundle request.identity
          (default_resource request.identity request.resource)
          request.capability_id
          request.operation_class
          at
authorize-governed codec start c before during at request d keeps empty reach answer allowed =
    let (r, e) = authorize_sound codec before during at c request d answer in
    let trusted : IsTrusted c.active =
      Reach-IsTrusted keeps reach (subst IsTrusted (sym empty) tt) in
    (
      r,
      validated-IsWellFormed r.snapshot.active_bundle (subst IsTrusted r.held trusted),
      (evaluate-allowed_iff codec.reference r.snapshot.active_bundle.bundle request.identity
            (default_resource request.identity request.resource) request.capability_id
            request.operation_class at).0
          (subst (λ x. x.allowed ≡ true) e allowed),
    )
