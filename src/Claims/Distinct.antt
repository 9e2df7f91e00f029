-- ===== src/Claims/Distinct.antt =====
-- What `Read` of internal/trustedclaims/roles.go promises of the roles that it accepts.
use Prim.Native.String.{len}
use ouf_mcp_server.Prelude.{
  ◌≤◌, String, true, false, not, ◌||◌, Option, none, some, List, [], ◌∷◌, ◌≡◌, refl, sym, ap, subst,
  ltb, ltb→ge, length, all, ◌is◌, ◌differs◌, differs→≡, is→≡, is_refl, has, distinct, precedes,
  precedes_irreflexive, precedes_trans, precedes_total, ok, ok-injective, else-ok, arith, ||-false,
  not-false, Bool-cases, inl, inr,
}
use ouf_mcp_server.Orchestration.Domain.{IdentityClaims}
use ouf_mcp_server.Operational.Pages.{is_sorted}
use ouf_mcp_server.Claims.Roles.{role_id}
use ouf_mcp_server.Claims.{Headers, Spacing, first_value, valid_roles, read}

-- Neighbours that are in order and differ are strictly in order.
strictly : (x y : String) → precedes y x ≡ false → (x is y) ≡ false → precedes x y ≡ true
strictly x y later other = elim (Bool-cases (precedes x y)) [
  | inl e ↦ e
  | inr e ↦ cc (ap (λ z. x is z) (sym (precedes_total x y e later)), is_refl x, other)
]

differs-after : (x y : String) → precedes x y ≡ true → (y is x) ≡ false
differs-after x y h = elim (Bool-cases (y is x)) [
  | inl e ↦ cc (subst (λ z. precedes x z ≡ true) (is→≡ y x e) h, precedes_irreflexive x)
  | inr e ↦ e
]

-- The neighbours of the roles are strictly in order.
next-precedes :
    (previous role : String) (rest : List String)
    → is_sorted precedes (previous ∷ role ∷ rest) ≡ true
    → valid_roles (some previous) (role ∷ rest) ≡ true
    → precedes previous role ≡ true
unfolding is_sorted valid_roles
next-precedes previous role rest sorted valid =
    strictly previous role (ground (arith, sorted)) (ground (arith, valid))

-- A text that comes before the first of the roles is none of them.
before-has :
    (x previous : String) (roles : List String)
    → precedes x previous ≡ true
    → is_sorted precedes (previous ∷ roles) ≡ true
    → valid_roles (some previous) roles ≡ true
    → has (previous ∷ roles) x ≡ false
unfolding is_sorted valid_roles has
before-has x previous [] first sorted valid = ground (arith, differs-after x previous first)
before-has x previous (role ∷ rest) first sorted valid =
    let next = next-precedes previous role rest sorted valid in
    let later =
      before-has x role rest (precedes_trans x previous role first next) (ground (arith, sorted))
        (ground (arith, valid)) in
    ground (arith, differs-after x previous first, later)

valid_roles-distinct :
    (previous : Option String) (roles : List String)
    → is_sorted precedes roles ≡ true
    → valid_roles previous roles ≡ true
    → distinct roles ≡ true
unfolding is_sorted valid_roles has
valid_roles-distinct previous [] sorted valid = refl
valid_roles-distinct previous (role ∷ []) sorted valid = refl
valid_roles-distinct previous (role ∷ next ∷ rest) sorted valid =
    let valid-rest : valid_roles (some role) (next ∷ rest) ≡ true = ground (arith, valid) in
    let sorted-rest : is_sorted precedes (next ∷ rest) ≡ true = ground (arith, sorted) in
    let unseen =
      before-has role next rest (next-precedes role next rest sorted valid-rest) sorted-rest
        (ground (arith, valid-rest)) in
    ground (arith, unseen, valid_roles-distinct (some role) (next ∷ rest) sorted-rest valid-rest)

valid_roles-role_id :
    (previous : Option String) (roles : List String)
    → valid_roles previous roles ≡ true
    → all role_id roles ≡ true
unfolding valid_roles
valid_roles-role_id previous [] valid = refl
valid_roles-role_id previous (role ∷ rest) valid =
    ground (arith, valid, valid_roles-role_id (some role) rest (ground (arith, valid)))

-- The claims that were read of the headers.
pub record IsRead (spacing : Spacing) (headers : Headers) (claims : IdentityClaims) : Type 0 where
  pub verified : headers.gateway_verified ≡ "true"
  pub single : length headers.values ≤ 1
  pub spelled : spacing.join claims.external_role_refs ≡ first_value headers.values
  pub few : length claims.external_role_refs ≤ 32
  pub lawful : all role_id claims.external_role_refs ≡ true
  pub sorted : is_sorted precedes claims.external_role_refs ≡ true
  pub different : distinct claims.external_role_refs ≡ true
  pub context : claims.acr ≡ headers.context_ref

-- Claims that are read come from a header that the gateway verified and that stands once: its roles are at
-- most 32 lawful identifiers, sorted, no two of them equal, and joined they are the header again.
pub read-IsRead :
    (spacing : Spacing) (headers : Headers) {claims : IdentityClaims}
    → read spacing headers ≡ ok claims
    → IsRead spacing headers claims
unfolding read
read-IsRead spacing headers h =
    let raw = first_value headers.values in
    let roles = spacing.fields raw in
    let gateway = else-ok (headers.gateway_verified differs "true") _ _ h in
    let once = else-ok (ltb 1 (length headers.values)) _ _ gateway.1 in
    let short = else-ok (ltb 4096 (len raw)) _ _ once.1 in
    let shape =
      else-ok
        (ltb 32 (length roles) || spacing.join roles differs raw || not (is_sorted precedes roles))
        _ _ short.1 in
    let named = else-ok (not (valid_roles none roles)) _ _ shape.1 in
    let outer = ||-false (ltb 32 (length roles) || spacing.join roles differs raw) _ shape.0 in
    let inner = ||-false (ltb 32 (length roles)) _ outer.0 in
    let in-order = not-false _ outer.1 in
    let lawful = not-false _ named.0 in
    subst (IsRead spacing headers) (ok-injective named.1) (record {
      verified = differs→≡ headers.gateway_verified "true" gateway.0;
      single = ltb→ge _ _ once.0;
      spelled = differs→≡ _ _ inner.1;
      few = ltb→ge _ _ inner.0;
      lawful = valid_roles-role_id none roles lawful;
      sorted = in-order;
      different = valid_roles-distinct none roles in-order lawful;
      context = refl;
    })
