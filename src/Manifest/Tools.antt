-- ===== src/Manifest/Tools.antt =====
-- What a manifest that passed `Validate` of internal/manifest/manifest.go offers as tools.
use mathlib.Core.List.{Permᴰ, Perm}
use mathlib.Core.Bool.{Bool-set}
use mathlib.Core.Logic.{∥∥₁_elim}
use ouf_mcp_server.Prelude.{
  ℕ, suc, String, Bool, true, false, not, ◌&&◌, ◌||◌, Option, none, some, List, [], ◌∷◌, ◌≡◌, refl,
  sym, ◌∙◌, subst, if◌then◌else◌, map, all, All, blank, ◌is◌, is_sym, is→≡, is_refl, has, distinct,
  arith, Bool-cases, inl, inr, all-perm,
}
use ouf_mcp_server.Manifest.{
  Capability, Snapshot, ManifestError, Strings, is_closed_schema, offers_query, refusal, guards,
  first_refusal, or_next, saw, validate_capabilities, validate, is_offered, select_tools,
  tool_eligible,
}

abbrev pub tool_names : List Capability → List String
tool_names tools = map (λ c. c.tool_name) tools

has-Permᴰ :
    (x : String) {xs ys : List Capability}
    → Permᴰ xs ys
    → has (tool_names xs) x ≡ has (tool_names ys) x
unfolding has
has-Permᴰ x Permᴰ.nil = refl
has-Permᴰ x (Permᴰ.cons e r) = cc (e, has-Permᴰ x r)
has-Permᴰ x (Permᴰ.swap {a' = c} {b' = d} {l = l} e f) = rw (e, f) (ground arith)
has-Permᴰ x (Permᴰ.trans q r) = has-Permᴰ x q ∙ has-Permᴰ x r

swapped : (a b : String) (l : List String) → distinct (a ∷ b ∷ l) ≡ distinct (b ∷ a ∷ l)
unfolding has
swapped a b l = ground (arith, is_sym a b)

distinct-Permᴰ :
    {xs ys : List Capability} → Permᴰ xs ys → distinct (tool_names xs) ≡ distinct (tool_names ys)
distinct-Permᴰ Permᴰ.nil = refl
distinct-Permᴰ (Permᴰ.cons e r) = cc (e, has-Permᴰ _ r, distinct-Permᴰ r)
distinct-Permᴰ (Permᴰ.swap {a' = c} {b' = d} {l = l} e f) =
    rw (e, f) (swapped d.tool_name c.tool_name (tool_names l))
distinct-Permᴰ (Permᴰ.trans q r) = distinct-Permᴰ q ∙ distinct-Permᴰ r

distinct-perm :
    {xs ys : List Capability} → Perm xs ys → distinct (tool_names xs) ≡ distinct (tool_names ys)
distinct-perm r = ∥∥₁_elim r (Bool-set _ _) distinct-Permᴰ

or_next-none : (e rest : Option ManifestError) → or_next e rest ≡ none → (e ≡ none) × (rest ≡ none)
or_next-none (some e) rest h = cc
or_next-none none rest h = (refl, h)

saw-keeps :
    (c : Capability) (seen : List String) (x : String)
    → has seen x ≡ true
    → has (saw c seen) x ≡ true
unfolding has
saw-keeps c seen x known = elim (Bool-cases (blank c.tool_name)) [
  | inl e ↦ rw (e, known) refl
  | inr e ↦ rw e (ground (arith, known))
]

saw_self :
    (c : Capability) (seen : List String)
    → blank c.tool_name ≡ false
    → has (saw c seen) c.tool_name ≡ true
unfolding has
saw_self c seen named = rw (named, is_refl c.tool_name) refl

unlike :
    (name : String) (seen : List String) (x : String)
    → blank x ≡ false
    → has seen x ≡ true
    → (not (blank name) && has seen name) ≡ false
    → (name is x) ≡ false
unlike name seen x named known fresh = elim (Bool-cases (name is x)) [
  | inl e ↦
      let same = is→≡ name x e in
      cc (subst (λ y. (not (blank y) && has seen y) ≡ false) same fresh, named, known)
  | inr e ↦ e
]

offered-named :
    (eligible unnamed offered active : Bool)
    → (eligible && offered && active) ≡ true
    → (eligible && unnamed) ≡ false
    → unnamed ≡ false
offered-named eligible unnamed offered active a b = ground arith

else_none :
    (b : Bool) (e : ManifestError) (k : Option ManifestError)
    → (if b then some e else k) ≡ none
    → (b ≡ false) × (k ≡ none)
else_none true e k h = cc
else_none false e k h = (refl, h)

first_refusal-false :
    (guards : List (Bool × ManifestError))
    → first_refusal guards ≡ none
    → All (λ (g : Bool × ManifestError). g.0 ≡ false) guards
first_refusal-false [] h = tt
first_refusal-false ((true, e) ∷ rest) h = cc
first_refusal-false ((false, e) ∷ rest) h = (refl, first_refusal-false rest h)

published :
    (eligible unnamed active offered bound closed words : Bool)
    → (eligible && offered && active) ≡ true
    → (eligible && unnamed) ≡ false
    → not bound ≡ false
    → not closed ≡ false
    → words ≡ false
    → (not unnamed && eligible && active && offered && bound && closed && not words) ≡ true
published eligible unnamed active offered bound closed words a b c d e = ground arith

module _ (strings : Strings) where
  -- A tool that may be shown to a model.
  abbrev pub is_published : Capability → Bool
  is_published c =
      not (blank c.tool_name)
      && c.tool_eligible
      && c.publication_state is "ACTIVE"
      && (c.mcp_class is "MCP_TOOL" || c.mcp_class is "MCP_PROPOSAL_ONLY")
      && strings.has_prefix c.gateway_binding_ref "capability://"
      && is_closed_schema strings c
      && not (offers_query strings c)

  refusal-false :
      (i : ℕ) (seen : List String) (c : Capability)
      → refusal strings i seen c ≡ none
      → All (λ (g : Bool × ManifestError). g.0 ≡ false) (guards strings i seen c)
  unfolding refusal
  refusal-false i seen c h = first_refusal-false (guards strings i seen c) h

  refusal-is_published :
      (i : ℕ) (seen : List String) (c : Capability)
      → refusal strings i seen c ≡ none
      → is_offered c ≡ true
      → is_published c ≡ true
  refusal-is_published i seen c h offered =
      let (whole, (named, (fresh, (human, (state, (class, (bound, (closed, (words, end))))))))) =
        refusal-false i seen c h in
      published c.tool_eligible (blank c.tool_name) (c.publication_state is "ACTIVE")
        (c.mcp_class is "MCP_TOOL" || c.mcp_class is "MCP_PROPOSAL_ONLY")
        (strings.has_prefix c.gateway_binding_ref "capability://") (is_closed_schema strings c)
        (offers_query strings c) offered named bound closed words

  select_tools-is_published :
      (i : ℕ) (seen : List String) (l : List Capability)
      → validate_capabilities strings i seen l ≡ none
      → all is_published (select_tools l) ≡ true
  unfolding validate_capabilities select_tools
  select_tools-is_published i seen [] h = refl
  select_tools-is_published i seen (c ∷ rest) h =
      let (first, others) = or_next-none (refusal strings i seen c) _ h in
      let later = select_tools-is_published (suc i) (saw c seen) rest others in
      elim (Bool-cases (is_offered c)) [
        | inl e ↦ rw (e, later, refusal-is_published i seen c first e) refl
        | inr e ↦ rw e later
      ]

  -- A text that was seen, or that no tool has, is the name of no tool that is selected.
  select_tools-unseen :
      (i : ℕ) (seen : List String) (l : List Capability) (x : String)
      → validate_capabilities strings i seen l ≡ none
      → blank x ≡ false
      → has seen x ≡ true
      → has (tool_names (select_tools l)) x ≡ false
  unfolding validate_capabilities select_tools has
  select_tools-unseen i seen [] x h named known = refl
  select_tools-unseen i seen (c ∷ rest) x h named known =
      let (first, others) = or_next-none (refusal strings i seen c) _ h in
      let (whole, (unnamed, (fresh, facts))) = refusal-false i seen c first in
      let later =
        select_tools-unseen (suc i) (saw c seen) rest x others named (saw-keeps c seen x known) in
      elim (Bool-cases (is_offered c)) [
        | inl e ↦ rw (e, later, unlike c.tool_name seen x named known fresh) refl
        | inr e ↦ rw e later
      ]

  select_tools-distinct :
      (i : ℕ) (seen : List String) (l : List Capability)
      → validate_capabilities strings i seen l ≡ none
      → distinct (tool_names (select_tools l)) ≡ true
  unfolding validate_capabilities select_tools
  select_tools-distinct i seen [] h = refl
  select_tools-distinct i seen (c ∷ rest) h =
      let (first, others) = or_next-none (refusal strings i seen c) _ h in
      let later = select_tools-distinct (suc i) (saw c seen) rest others in
      let (whole, (unnamed, facts)) = refusal-false i seen c first in
      elim (Bool-cases (is_offered c)) [
        | inl e ↦
            let named : blank c.tool_name ≡ false =
              offered-named c.tool_eligible (blank c.tool_name) _ _ e unnamed in
            let other =
              select_tools-unseen (suc i) (saw c seen) rest c.tool_name others named
                (saw_self c seen named) in
            rw (e, later, other) refl
        | inr e ↦ rw e later
      ]

-- The tools of a valid manifest are published capabilities, each one named, active, of a class for models,
-- with a closed schema that offers no query language, and no two of them share a name, where the sort
-- permutes its list.
pub tool_eligible-is_published :
    (strings : Strings) (s : Snapshot)
    → ((l : List Capability) → Perm l (strings.sort_tools l))
    → validate strings s ≡ none
    → (all (is_published strings) (tool_eligible strings s) ≡ true)
      × (distinct (tool_names (tool_eligible strings s)) ≡ true)
unfolding validate tool_eligible
tool_eligible-is_published strings s permutes h =
    let selected = select_tools s.capabilities in
    let k = (else_none (blank (strings.trim_space s.version)) _ _ h).1 in
    (
      sym (all-perm (is_published strings) (permutes selected))
          ∙ select_tools-is_published strings 0 [] s.capabilities k,
      sym (distinct-perm (permutes selected)) ∙ select_tools-distinct strings 0 [] s.capabilities k,
    )
