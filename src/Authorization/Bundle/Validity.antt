-- ===== src/Authorization/Bundle/Validity.antt =====
-- What `PolicyBundle.Validate` of internal/authorization/cache.go accepts, said without its loops.
use ouf_mcp_server.Prelude.{
  Option, some, Option-cases, ltb, leb, ◌is◌, ◌<◌, String, Bool, true, false, not, ◌&&◌, ◌||◌, none,
  List, [], ◌∷◌, map, length, all, all-cong, Bool-cases, inl, inr, is_some, ◌≡◌, ◌↔◌, refl, arith,
  blank, has, distinct, fresh, fresh-distinct, has-cons, has-nil, ◌≤◌,
}
use ouf_mcp_server.Prelude.Int.{ℤ, pos, leb_ℤ}
use ouf_mcp_server.Authorization.Constraints.{GrantConstraints}
use ouf_mcp_server.Authorization.Constraints
use ouf_mcp_server.Authorization.Bundle.{
  CapabilityDescriptor, Grant, PolicyBundle, Scan, seen_all, stopped, check_capabilities,
  check_grant, constraint_error, names_role, check_grants, after_capabilities, validate,
}

abbrev pub capability_ids : List CapabilityDescriptor → List String
capability_ids = map (λ c. c.capability_id)

abbrev pub grant_ids : List Grant → List String
grant_ids = map (λ g. g.grant_id)

abbrev pub is_complete : CapabilityDescriptor → Bool
is_complete c = not (blank c.capability_id || blank c.operation || blank c.required_scope)

abbrev pub is_age : Option ℤ → Bool
is_age none = true
is_age (some age) = leb_ℤ (pos 1) age && leb_ℤ age (pos 86400)

-- The effect is one of three, the lists are short, and the age of an authentication is a day at most.
abbrev pub are_sound : Option GrantConstraints → Bool
are_sound none = true
are_sound (some c) =
    (c.effect is "" || c.effect is "ALLOW" || c.effect is "DENY")
    && leb (length c.resource_attributes) 64
    && leb (length c.allowed_data_labels) 64
    && leb (length c.allowed_detail_levels) 16
    && leb (length c.required_amr) 32
    && is_age c.max_authentication_age_seconds

abbrev pub has_role : Option GrantConstraints → Bool
has_role none = false
has_role (some c) = not (blank c.external_role_ref)

-- A grant has its names, a subject of one of the three kinds, and a time that begins before it ends.
abbrev pub is_sound : Grant → Bool
is_sound g =
    not (blank g.grant_id)
    && not (blank g.capability_id)
    && not (blank g.tenant_id)
    && ltb 0 g.valid_from
    && ltb g.valid_from g.valid_until
    && (not (blank g.subject_id) || not (blank g.service_principal_id) || has_role g.constraints)
    && are_sound g.constraints

constraints-none :
    (c : GrantConstraints) → not (is_some (Constraints.validate c)) ≡ are_sound (some c)
unfolding Constraints.validate
constraints-none c = elim (Option-cases c.max_authentication_age_seconds) [
  | inl e ↦ rw e (ground arith)
  | inr (age, e) ↦ rw e (ground arith)
]

constraint_error-none :
    (o : Option GrantConstraints) → not (is_some (constraint_error o)) ≡ are_sound o
constraint_error-none none = refl
constraint_error-none (some c) = constraints-none c

names_role-eq : (o : Option GrantConstraints) → names_role o ≡ has_role o
names_role-eq none = refl
names_role-eq (some c) = refl

check_grant-none : (g : Grant) → not (is_some (check_grant g)) ≡ is_sound g
unfolding check_grant
check_grant-none g =
    ground (arith, constraint_error-none g.constraints, names_role-eq g.constraints)

-- A bundle fit for use.
pub record IsWellFormed (b : PolicyBundle) : Type 0 where
  pub named : blank b.bundle_id ≡ false
  pub versioned : leb_ℤ (pos 1) b.version ≡ true
  pub dated : 0 < b.published_at
  pub capabilities_fit : length b.capabilities ≤ 10000
  pub grants_fit : length b.grants ≤ 10000
  pub capabilities_distinct : distinct (capability_ids b.capabilities) ≡ true
  pub capabilities_complete : all is_complete b.capabilities ≡ true
  pub grants_distinct : distinct (grant_ids b.grants) ≡ true
  pub references_declared :
      all (λ g. has (capability_ids b.capabilities) g.capability_id) b.grants ≡ true
  pub grants_sound : all is_sound b.grants ≡ true

-- The keys that the first loop has seen when it ends well.
abbrev keys : Scan → List String
keys (seen_all s) = s
keys (stopped e) = []

abbrev ended : Scan → Bool
ended (seen_all s) = true
ended (stopped e) = false

check_capabilities-ended :
    (seen : List String) (cs : List CapabilityDescriptor)
    → ended (check_capabilities seen cs) ≡ (fresh seen (capability_ids cs) && all is_complete cs)
unfolding check_capabilities
check_capabilities-ended seen [] = refl
check_capabilities-ended seen (c ∷ cs) =
    ground (arith, check_capabilities-ended (c.capability_id ∷ seen) cs)

check_capabilities-keys :
    (seen : List String) (cs : List CapabilityDescriptor) (x : String)
    → ended (check_capabilities seen cs) ≡ true
    → has (keys (check_capabilities seen cs)) x ≡ (has (capability_ids cs) x || has seen x)
unfolding check_capabilities
check_capabilities-keys seen [] x h = ground (arith, has-nil x)
check_capabilities-keys seen (c ∷ cs) x h = ground (
  arith,
  check_capabilities-keys (c.capability_id ∷ seen) cs x,
  has-cons c.capability_id seen x,
  has-cons c.capability_id (capability_ids cs) x,
)

check_grants-none :
    (caps seen : List String) (gs : List Grant)
    → not (is_some (check_grants caps seen gs))
      ≡ (fresh seen (grant_ids gs) && all (λ g. has caps g.capability_id) gs && all is_sound gs)
unfolding check_grants
check_grants-none caps seen [] = refl
check_grants-none caps seen (g ∷ gs) =
    ground (arith, check_grants-none caps (g.grant_id ∷ seen) gs, check_grant-none g)

-- Both loops, one after the other.
abbrev lists_ok : PolicyBundle → Bool
lists_ok b =
    distinct (capability_ids b.capabilities)
    && all is_complete b.capabilities
    && distinct (grant_ids b.grants)
    && all (λ g. has (capability_ids b.capabilities) g.capability_id) b.grants
    && all is_sound b.grants

references-eq :
    (b : PolicyBundle)
    → ended (check_capabilities [] b.capabilities) ≡ true
    → all (λ g. has (keys (check_capabilities [] b.capabilities)) g.capability_id) b.grants
      ≡ all (λ g. has (capability_ids b.capabilities) g.capability_id) b.grants
references-eq b h = all-cong _ _ key-eq b.grants
  where
    key-eq :
        (g : Grant)
        → has (keys (check_capabilities [] b.capabilities)) g.capability_id
          ≡ has (capability_ids b.capabilities) g.capability_id
    key-eq g = ground (
      arith,
      check_capabilities-keys [] b.capabilities g.capability_id h,
      has-nil g.capability_id,
    )

after_capabilities-cases :
    (s : Scan) (gs : List Grant)
    → not (is_some (after_capabilities s gs))
      ≡ (ended s && not (is_some (check_grants (keys s) [] gs)))
after_capabilities-cases (seen_all s) gs = refl
after_capabilities-cases (stopped e) gs = refl

loops-ok :
    (b : PolicyBundle)
    → not (is_some (after_capabilities (check_capabilities [] b.capabilities) b.grants))
      ≡ lists_ok b
loops-ok b = elim (Bool-cases (ended (check_capabilities [] b.capabilities))) [
  | inl e ↦ ground (
    arith,
    e,
    after_capabilities-cases (check_capabilities [] b.capabilities) b.grants,
    check_capabilities-ended [] b.capabilities,
    check_grants-none (keys (check_capabilities [] b.capabilities)) [] b.grants,
    references-eq b e,
    fresh-distinct (capability_ids b.capabilities),
    fresh-distinct (grant_ids b.grants),
  )
  | inr e ↦ ground (
    arith,
    e,
    after_capabilities-cases (check_capabilities [] b.capabilities) b.grants,
    check_capabilities-ended [] b.capabilities,
    fresh-distinct (capability_ids b.capabilities),
  )
]

validate_sound : (b : PolicyBundle) → validate b ≡ none → IsWellFormed b
unfolding validate
validate_sound b h = ground (arith, loops-ok b)

validate_complete : (b : PolicyBundle) → IsWellFormed b → validate b ≡ none
unfolding validate
validate_complete b w = ground (arith, loops-ok b)

-- A bundle is accepted exactly when it is well formed: it is named, versioned and dated, has at
-- most ten thousand capabilities and grants, no capability and no grant is listed twice, every
-- capability is complete, and every grant is sound and refers to a capability of the bundle.
pub validate_iff : (b : PolicyBundle) → (validate b ≡ none) ↔ IsWellFormed b
validate_iff b = (validate_sound b, validate_complete b)
