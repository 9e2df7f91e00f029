-- ===== src/Authorization/Cache/Lineage.antt =====
-- How the active snapshot of a cache can change, over any interleaving of refreshes.
use ouf_mcp_server.Prelude.{
  Option, none, some, List, [], ◌∷◌, ◌≡◌, ◌≤◌, inl, inr, refl, sym, ap, subst, ◌∙◌, arith, Result,
  ok, err, differs→≡, Bool-cases, Option-cases, Result-cases,
}
use ouf_mcp_server.Prelude.Int.{ℤ, ◌≤ℤ◌, eq_of_parts, pos_part, neg_part}
use ouf_mcp_server.Orchestration.Domain.{Time}
use ouf_mcp_server.Authorization.Bundle.{ActivePolicyBundle, validate_active}
use ouf_mcp_server.Authorization.Cache.{
  CachedSnapshot, Cache, CacheError, Codec, reject, reject_current, publish, refresh,
}

-- `t` is at least as recent as `s` in every respect that the cache promises.
pub record IsLater (s t : CachedSnapshot) : Type 0 where
  pub same_bundle : t.active_bundle.bundle_id ≡ s.active_bundle.bundle_id
  pub version_grows : s.active_bundle.bundle_version ≤ℤ t.active_bundle.bundle_version
  pub activation_grows : s.active_bundle.activated_at ≤ t.active_bundle.activated_at
  pub verification_grows : s.verified_at ≤ t.verified_at
  pub version_immutable :
      t.active_bundle.bundle_version ≡ s.active_bundle.bundle_version → t.digest ≡ s.digest
  pub activation_unique :
      t.active_bundle.activated_at ≡ s.active_bundle.activated_at
      → t.active_bundle.bundle_version ≡ s.active_bundle.bundle_version

pub IsLater-refl : (s : CachedSnapshot) → IsLater s s
IsLater-refl s = record {
  same_bundle = refl;
  version_grows = omega arith;
  activation_grows = omega arith;
  verification_grows = omega arith;
  version_immutable = λ e. refl;
  activation_unique = λ e. refl;
}

squeeze : (a b c : ℤ) → a ≤ℤ b → b ≤ℤ c → c ≡ a → b ≡ a
squeeze a b c p q e = eq_of_parts b a (omega (arith, ap pos_part e, ap neg_part e))

squeeze_right : (a b c : ℤ) → a ≤ℤ b → b ≤ℤ c → c ≡ a → c ≡ b
squeeze_right a b c p q e = e ∙ sym (squeeze a b c p q e)

pub IsLater-trans : {s t u : CachedSnapshot} → IsLater s t → IsLater t u → IsLater s u
IsLater-trans {s} {t} {u} p q = record {
  same_bundle = q.same_bundle ∙ p.same_bundle;
  version_grows = omega (arith, p.version_grows, q.version_grows);
  activation_grows = omega (arith, p.activation_grows, q.activation_grows);
  verification_grows = omega (arith, p.verification_grows, q.verification_grows);
  version_immutable = λ e.
      q.version_immutable (squeeze_right _ _ _ p.version_grows q.version_grows e)
      ∙ p.version_immutable (squeeze _ _ _ p.version_grows q.version_grows e);
  activation_unique = λ e.
      q.activation_unique (omega (arith, p.activation_grows, q.activation_grows, e))
      ∙ p.activation_unique (omega (arith, p.activation_grows, q.activation_grows, e));
}

reject-none : (s t : CachedSnapshot) → reject s t ≡ none → IsLater s t
unfolding reject
reject-none s t h = record {
  same_bundle = differs→≡ _ _ (ground arith);
  version_grows = ground arith;
  activation_grows = ground arith;
  verification_grows = ground arith;
  version_immutable = λ e. ground arith;
  activation_unique = λ e.
      ground (arith, eq_of_parts t.active_bundle.bundle_version s.active_bundle.bundle_version);
}

-- What other goroutines publish is itself fit to be published, each over what it found.
abbrev pub IsChain : Option CachedSnapshot → List CachedSnapshot → Type 0
IsChain current [] = Unit {0}
IsChain current (other ∷ others) =
    (reject_current current other ≡ none)
    × (validate_active other.active_bundle ≡ none)
    × IsChain (some other) others

publish-IsLater :
    (next s : CachedSnapshot) (others : List CachedSnapshot)
    → IsChain (some s) others
    → (t : CachedSnapshot) × ((publish next (some s) others).0 ≡ some t) × IsLater s t
unfolding publish
publish-IsLater next s [] chain = elim (Option-cases (reject s next)) [
  | inl e ↦ (next, rw (e, publish), reject-none s next e)
  | inr (x, e) ↦ (s, rw (e, publish), IsLater-refl s)
]
publish-IsLater next s (other ∷ others) chain = elim (Option-cases (reject s next)) [
  | inl e ↦
      let (t, ends, later) = publish-IsLater next other others chain.2 in
      (t, rw (e, publish) ends, IsLater-trans (reject-none s other chain.0) later)
  | inr (x, e) ↦ (s, rw (e, publish), IsLater-refl s)
]

publish-IsLater-from :
    (s t : CachedSnapshot) (current : Option CachedSnapshot) (next : CachedSnapshot)
    (others : List CachedSnapshot)
    → current ≡ some t
    → IsLater s t
    → IsChain current others
    → (u : CachedSnapshot) × ((publish next current others).0 ≡ some u) × IsLater s u
publish-IsLater-from s t none next others e later chain = cc
publish-IsLater-from s t (some x) next others e later chain =
    let (u, ends, grown) = publish-IsLater next x others chain in
    let found : x ≡ t = cc in (u, ends, IsLater-trans later (subst (λ y. IsLater y u) found grown))

-- Only a bundle that passed its validation is decided on.
abbrev pub IsTrusted : Option CachedSnapshot → Type 0
IsTrusted none = Unit {0}
IsTrusted (some s) = validate_active s.active_bundle ≡ none

publish-IsTrusted :
    (next : CachedSnapshot) (current : Option CachedSnapshot) (others : List CachedSnapshot)
    → IsTrusted (some next)
    → IsTrusted current
    → IsChain current others
    → IsTrusted (publish next current others).0
unfolding publish
publish-IsTrusted next current [] new old chain =
    elim (Option-cases (reject_current current next)) [
      | inl e ↦ rw (e, publish) new
      | inr (x, e) ↦ rw (e, publish) old
    ]
publish-IsTrusted next current (other ∷ others) new old chain =
    elim (Option-cases (reject_current current next)) [
      | inl e ↦ rw (e, publish) (publish-IsTrusted next (some other) others new chain.1 chain.2)
      | inr (x, e) ↦ rw (e, publish) old
    ]

-- The JSON copy that detaches a bundle gives back the bundle, where it succeeds.
abbrev pub KeepsBundle : Codec → Type 0
KeepsBundle codec = (b d : ActivePolicyBundle) → codec.detach b ≡ ok d → d ≡ b

-- One refresh of the cache, by any goroutine.
pub data Step (codec : Codec) : Cache → Cache → Type 0 where
  refreshes :
      (fetched : Result CacheError ActivePolicyBundle) (verified : Time)
      (others : List CachedSnapshot) (c : Cache)
      → IsChain c.active others
      → Step codec c (refresh codec fetched verified others c).0

pub data Reach (codec : Codec) (c : Cache) : Cache → Type 0 where
  here : Reach codec c c
  next : {d e : Cache} → Reach codec c d → Step codec d e → Reach codec c e

-- What a refresh keeps of an active snapshot `s`.
abbrev pub Holds : CachedSnapshot → Cache → Type 0
Holds s c = (t : CachedSnapshot) × (c.active ≡ some t) × IsLater s t

refresh-cases {ℓ} :
    (P : Option CachedSnapshot → Type ℓ) (codec : Codec)
    (fetched : Result CacheError ActivePolicyBundle) (verified : Time)
    (others : List CachedSnapshot) (c : Cache)
    → P c.active
    → ((b d : ActivePolicyBundle)
        → validate_active b ≡ none
        → codec.detach b ≡ ok d
        → P
            (publish
              (record { active_bundle = d; verified_at = verified; digest = codec.digest d.bundle })
              c.active
              others).0)
    → P (refresh codec fetched verified others c).0.active
unfolding refresh
refresh-cases P codec (err e) verified others c same swapped = elim (Bool-cases c.has_source) [
  | inr off ↦ rw (off, refresh) same
  | inl on ↦ rw (on, refresh) same
]
refresh-cases P codec (ok b) verified others c same swapped = elim (Bool-cases c.has_source) [
  | inr off ↦ rw (off, refresh) same
  | inl on ↦ elim (Option-cases (validate_active b)) [
    | inr (x, e) ↦ rw (on, e, refresh) same
    | inl e ↦ elim (Result-cases (codec.detach b)) [
      | inr (x, f) ↦ rw (on, e, f, refresh) same
      | inl (d, f) ↦ rw (on, e, f, refresh) (swapped b d e f)
    ]
  ]
]

abbrev IsLaterThan : CachedSnapshot → Option CachedSnapshot → Type 0
IsLaterThan s o = (t : CachedSnapshot) × (o ≡ some t) × IsLater s t

Step-Holds :
    {codec : Codec} {s : CachedSnapshot} {c d : Cache} → Step codec c d → Holds s c → Holds s d
Step-Holds {codec} {s} (refreshes fetched verified others c chain) (t, e, later) =
    refresh-cases (IsLaterThan s) codec fetched verified others c (t, e, later)
      (λ b d v f. publish-IsLater-from s t c.active _ others e later chain)

Step-IsTrusted :
    {codec : Codec} {c d : Cache}
    → KeepsBundle codec
    → Step codec c d
    → IsTrusted c.active
    → IsTrusted d.active
Step-IsTrusted {codec} keeps (refreshes fetched verified others c chain) h =
    refresh-cases IsTrusted codec fetched verified others c h
      (λ b d v f. publish-IsTrusted _ c.active others (rw (keeps b d f) v) h chain)

-- Whatever refreshes run, interleaved in any way, an active snapshot is only ever replaced by a
-- later one: the bundle keeps its id, its version, its activation and its verification never go
-- back, a version keeps its digest, and an activation time belongs to one version.
pub Reach-Holds :
    {codec : Codec} {c d : Cache} (s : CachedSnapshot)
    → Reach codec c d
    → c.active ≡ some s
    → Holds s d
Reach-Holds s here e = (s, e, IsLater-refl s)
Reach-Holds s (next r step) e = Step-Holds step (Reach-Holds s r e)

-- From a cache whose snapshot is validated, or that has none, every refresh leads to such a cache:
-- no unvalidated bundle is ever decided on. The JSON copy is assumed to give back its argument.
pub Reach-IsTrusted :
    {codec : Codec} {c d : Cache}
    → KeepsBundle codec
    → Reach codec c d
    → IsTrusted c.active
    → IsTrusted d.active
Reach-IsTrusted keeps here h = h
Reach-IsTrusted keeps (next r step) h = Step-IsTrusted keeps step (Reach-IsTrusted keeps r h)
