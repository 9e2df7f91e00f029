-- ===== src/Authorization/Cache.antt =====
-- `Cache` of internal/authorization/cache.go: the snapshot that is decided on, its replacement
pub mod Decisions
pub mod Lineage
-- and its age. Several goroutines may refresh one cache.
use ouf_mcp_server.Prelude.{
  ℕ, ◌+◌, ◌*◌, String, Bool, true, false, not, ◌&&◌, ◌||◌, Option, none, some, List, [], ◌∷◌, ltb,
  ◌==◌, if◌then◌else◌, ◌is◌, ◌differs◌, blank, Result, ok, err,
}
use ouf_mcp_server.Prelude.Int.{ℤ, pos, pos_part, ltb_ℤ, eqb_ℤ}
use ouf_mcp_server.Orchestration.Domain.{
  Identity, ResourceContext, AuthorizationRequest, AuthorizationDecision, Time, Duration, second,
}
use ouf_mcp_server.Authorization.Bundle.{
  PolicyBundle, ActivePolicyBundle, BundleError, validate_active,
}
use ouf_mcp_server.Authorization.Evaluate.{evaluate}

-- The digest is the sha256 sum, as a number.
pub record CachedSnapshot : Type 0 where
  pub active_bundle : ActivePolicyBundle
  pub verified_at : Time
  pub digest : ℕ

pub record Cache : Type 0 where
  pub has_source : Bool
  pub active : Option CachedSnapshot
  pub max_staleness : Duration

pub data CacheError : Type 0 where
  policy_unavailable staleness_out_of_range fetch_failed codec_failed : CacheError
  rollback_or_lineage_switch immutable_version_changed activation_collision : CacheError
  older_refresh principal_incomplete service_principal_required : CacheError
  invalid_bundle : BundleError → CacheError

unfoldable pub new_cache : Cache
new_cache = record { has_source = true; active = none; max_staleness = 300 * second }

unfoldable pub new_cache_with_max_staleness : ℤ → Result CacheError Cache
unfolding new_cache
new_cache_with_max_staleness age =
    if ltb_ℤ age (pos second) || ltb_ℤ (pos (24 * 3600 * second)) age
    then err staleness_out_of_range
    else ok (record new_cache { max_staleness = pos_part age })

-- The guards of one round of the loop of `Refresh`; `none` lets the round try its swap.
unfoldable pub reject : CachedSnapshot → CachedSnapshot → Option CacheError
reject current next =
    let old = current.active_bundle in
    let detached = next.active_bundle in
    if detached.bundle_id differs old.bundle_id
      || ltb_ℤ detached.bundle_version old.bundle_version
      || ltb detached.activated_at old.activated_at
    then some rollback_or_lineage_switch
    else if eqb_ℤ detached.bundle_version old.bundle_version && not (next.digest == current.digest)
    then some immutable_version_changed
    else if detached.activated_at == old.activated_at
        && not (eqb_ℤ detached.bundle_version old.bundle_version)
    then some activation_collision
    else if ltb next.verified_at current.verified_at
    then some older_refresh
    else none

abbrev pub reject_current : Option CachedSnapshot → CachedSnapshot → Option CacheError
reject_current none next = none
reject_current (some current) next = reject current next

-- The loop of `Refresh`. Each entry of the list is what another goroutine publishes between this
-- round's load and its compare-and-swap, which then fails; in the last round nothing intervenes.
-- The result is the active snapshot at the end, and the error.
unfoldable pub publish :
    CachedSnapshot
    → Option CachedSnapshot
    → List CachedSnapshot
    → Option CachedSnapshot × Option CacheError
unfolding reject
publish next current [] = elim (reject_current current next) [
  | some e ↦ (current, some e)
  | none ↦ (some next, none)
]
publish next current (other ∷ others) =
    let retry = publish next (some other) others in
    elim (reject_current current next) [ some e ↦ (current, some e) | none ↦ retry ]

-- What the package takes from the standard library and from its source: the JSON copy that
-- detaches a bundle, the sha256 sum of a bundle's JSON, and the print of a decision reference.
pub record Codec : Type 0 where
  pub detach : ActivePolicyBundle → Result CacheError ActivePolicyBundle
  pub digest : PolicyBundle → ℕ
  pub reference : String → ℤ → String → String

-- `fetched` is what `FetchActive` answers, `verified` the reading of the clock.
unfoldable pub refresh :
    Codec
    → Result CacheError ActivePolicyBundle
    → Time
    → List CachedSnapshot
    → Cache
    → Cache × Option CacheError
unfolding validate_active publish
refresh codec fetched verified others c =
    if not c.has_source then (c, some policy_unavailable) else elim fetched [
      | err e ↦ (c, some e)
      | ok bundle ↦ elim (validate_active bundle) [
        | some e ↦ (c, some (invalid_bundle e))
        | none ↦ elim (codec.detach bundle) [
          | err e ↦ (c, some e)
          | ok detached ↦
              let next : CachedSnapshot = record {
                active_bundle = detached;
                verified_at = verified;
                digest = codec.digest detached.bundle;
              } in
              let swapped = publish next c.active others in
              (record c { active = swapped.0 }, swapped.1)
        ]
      ]
    ]

abbrev pub incomplete : Identity → Bool
incomplete p =
    blank p.principal_id
    || blank p.tenant_id
    || blank p.actor_type
    || blank p.authentication_context_ref
    || blank p.issuer
    || blank p.audience

abbrev pub default_resource : Identity → ResourceContext → ResourceContext
default_resource p r = record r {
  tenant_id = if blank r.tenant_id then p.tenant_id else r.tenant_id;
  resource_type = if blank r.resource_type then "capability" else r.resource_type;
}

-- `Authorize` below its load of the active snapshot. It reads the clock three times: `before`,
-- `during` and `at`.
unfoldable pub decide_on :
    Codec
    → Time
    → Time
    → Time
    → Duration
    → CachedSnapshot
    → AuthorizationRequest
    → Result CacheError AuthorizationDecision
unfolding evaluate
decide_on codec before during at max_staleness active request =
    if ltb before active.verified_at || not (ltb during (active.verified_at + max_staleness))
    then err policy_unavailable
    else if incomplete request.identity
    then err principal_incomplete
    else if request.identity.actor_type is "SERVICE" && blank request.identity.service_principal_id
    then err service_principal_required
    else ok (
        evaluate codec.reference active.active_bundle.bundle request.identity
          (default_resource request.identity request.resource) request.capability_id
          request.operation_class at)

unfoldable pub authorize :
    Codec
    → Time
    → Time
    → Time
    → Cache
    → AuthorizationRequest
    → Result CacheError AuthorizationDecision
unfolding decide_on
authorize codec before during at c request = elim c.active [
  | none ↦ err policy_unavailable
  | some active ↦ decide_on codec before during at c.max_staleness active request
]
