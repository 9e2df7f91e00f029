-- ===== src/Operational/Incidents/Order.antt =====
-- `incidentBefore` of internal/operational/aggregator.go, as a lexicographic order.
use text.Mathlib.TextEquality.{eq_iff}
use ouf_mcp_server.Prelude.{
  ℕ, String, Bool, true, false, not, ◌&&◌, ◌≡◌, subst, ltb, ◌==◌, if◌then◌else◌, ◌is◌, is→≡,
  is_refl, precedes, precedes_irreflexive, precedes_trans, precedes_total, arith,
}
use ouf_mcp_server.Orchestration.Domain.{Time}
use ouf_mcp_server.Operational.Incidents.{
  Item, agree, is_resolved, rank_of, needs_action, incident_time, module_of, id_of, incident_before,
}

-- One key of a lexicographic comparison: when two elements agree on it, and when it puts one first.
pub record IsKey {A : Type 0} (same before : A → A → Bool) : Type 0 where
  pub same_trans : (a b c : A) → same a b ≡ true → same b c ≡ true → same a c ≡ true
  pub same_self : (a : A) → same a a ≡ true
  pub before_trans : (a b c : A) → before a b ≡ true → before b c ≡ true → before a c ≡ true
  pub same_before : (a b c : A) → same a b ≡ true → before b c ≡ true → before a c ≡ true
  pub before_same : (a b c : A) → before a b ≡ true → same b c ≡ true → before a c ≡ true
  pub apart : (a b : A) → before a b ≡ true → same a b ≡ false

module _ {A : Type 0} (s t u v : A → A → Bool) (k : IsKey s t) (l : IsKey u v) where
  -- The second key decides where the first one agrees.
  pub lexicographic : IsKey (λ a b. s a b && u a b) (λ a b. if not (s a b) then t a b else v a b)
  lexicographic = record {
    same_trans = λ a b c p q. ground (arith, k.same_trans a b c, l.same_trans a b c);
    same_self = λ a. ground (arith, k.same_self a, l.same_self a);
    before_trans = λ a b c p q. ground (
      arith,
      k.before_trans a b c,
      k.same_before a b c,
      k.before_same a b c,
      k.same_trans a b c,
      k.apart a c,
      l.before_trans a b c,
    );
    same_before = λ a b c p q.
        ground (arith, k.same_before a b c, k.same_trans a b c, k.apart a c, l.same_before a b c);
    before_same = λ a b c p q.
        ground (arith, k.before_same a b c, k.same_trans a b c, k.apart a c, l.before_same a b c);
    apart = λ a b p. ground (arith, k.apart a b, l.apart a b);
  }

precedes_apart : (s t : String) → precedes s t ≡ true → (s is t) ≡ false
precedes_apart s t p =
    ground (
      arith,
      eq_iff s t,
      λ (e : s ≡ t). subst (λ u. precedes s u ≡ false) e (precedes_irreflexive s),
    )

module _ {A : Type 0} where
  -- A flag that puts its elements last, and one that puts them first.
  late :
      (f : A → Bool)
      → IsKey (λ a b. agree (f a) (f b)) (λ a b. not (agree (f a) (f b)) && not (f a))
  late f = record {
    same_trans = λ a b c p q. ground arith;
    same_self = λ a. ground arith;
    before_trans = λ a b c p q. ground arith;
    same_before = λ a b c p q. ground arith;
    before_same = λ a b c p q. ground arith;
    apart = λ a b p. ground arith;
  }

  early : (f : A → Bool) → IsKey (λ a b. agree (f a) (f b)) (λ a b. not (agree (f a) (f b)) && f a)
  early f = record {
    same_trans = λ a b c p q. ground arith;
    same_self = λ a. ground arith;
    before_trans = λ a b c p q. ground arith;
    same_before = λ a b c p q. ground arith;
    before_same = λ a b c p q. ground arith;
    apart = λ a b p. ground arith;
  }

  -- A number, the greatest first.
  descending : (f : A → ℕ) → IsKey (λ a b. f a == f b) (λ a b. ltb (f b) (f a))
  descending f = record {
    same_trans = λ a b c p q. ground arith;
    same_self = λ a. ground arith;
    before_trans = λ a b c p q. ground arith;
    same_before = λ a b c p q. ground arith;
    before_same = λ a b c p q. ground arith;
    apart = λ a b p. ground arith;
  }

  alphabetical : (f : A → String) → IsKey (λ a b. f a is f b) (λ a b. precedes (f a) (f b))
  alphabetical f = record {
    same_trans = λ a b c p q. rw (is→≡ _ _ p, is→≡ _ _ q) (is_refl (f c));
    same_self = λ a. is_refl (f a);
    before_trans = λ a b c p q. precedes_trans (f a) (f b) (f c) p q;
    same_before = λ a b c p q. rw (is→≡ _ _ p) q;
    before_same = λ a b c p q. subst (λ u. precedes (f a) u ≡ true) (is→≡ (f b) (f c) q) p;
    apart = λ a b p. precedes_apart (f a) (f b) p;
  }

module _ (parse_time : String → Time) where
  -- Two incidents that agree on every key of the comparison.
  abbrev pub agrees : Item → Item → Bool
  agrees a b =
      agree (is_resolved a) (is_resolved b)
      && (rank_of a == rank_of b
          && (agree (needs_action a) (needs_action b)
              && (incident_time parse_time a == incident_time parse_time b
                  && (module_of a is module_of b && id_of a is id_of b))))

  -- `incidentBefore` compares by the keys one after the other.
  pub incident_before-IsKey : IsKey agrees (incident_before parse_time)
  unfolding incident_before
  incident_before-IsKey =
      let chain = lexicographic _ _ _ _ (late is_resolved) (
        lexicographic _ _ _ _ (descending rank_of) (
          lexicographic _ _ _ _ (early needs_action) (
            lexicographic _ _ _ _ (descending (incident_time parse_time))
              (lexicographic _ _ _ _ (alphabetical module_of) (alphabetical id_of))))) in
      record {
        same_trans = chain.same_trans;
        same_self = chain.same_self;
        before_trans = λ a b c p q. ground (arith, chain.before_trans a b c);
        same_before = λ a b c p q. ground (arith, chain.same_before a b c);
        before_same = λ a b c p q. ground (arith, chain.before_same a b c);
        apart = λ a b p. ground (arith, chain.apart a b);
      }

-- A strict order that leaves two elements undecided only where they agree.
pub record IsStrictOrder {A : Type 0} (same before : A → A → Bool) : Type 0 where
  pub irreflexive : (a : A) → before a a ≡ false
  pub transitive : (a b c : A) → before a b ≡ true → before b c ≡ true → before a c ≡ true
  pub decided : (a b : A) → before a b ≡ false → before b a ≡ false → same a b ≡ true

-- incidentBefore is a strict order on incidents, and puts neither of two incidents first only where
-- they agree on being resolved, severity, required action, time, module and identifier.
pub incident_before-IsStrictOrder :
    (parse_time : String → Time) → IsStrictOrder (agrees parse_time) (incident_before parse_time)
unfolding incident_before
incident_before-IsStrictOrder parse_time =
    let key = incident_before-IsKey parse_time in
    record {
      irreflexive = λ a. ground (arith, key.apart a a, key.same_self a);
      transitive = key.before_trans;
      decided = λ a b p q. ground (
        arith,
        precedes_total (module_of a) (module_of b),
        precedes_total (id_of a) (id_of b),
        eq_iff (module_of a) (module_of b),
        eq_iff (module_of b) (module_of a),
        eq_iff (id_of a) (id_of b),
      );
    }
