-- ===== src/Operational/Pages/Decoded.antt =====
-- What `decodeCursorOwnerPage` and `readPage` of internal/operational/cursor_composer.go promise of a
-- page, and positions in a sorted list.
use ouf_mcp_server.Prelude.{
  ℕ, zero, suc, String, Bool, true, false, not, Option, none, some, List, [], ◌∷◌, ◌≡◌, refl, sym,
  ap, ◌∙◌, subst, not-false, is_some, ltb, length, blank, ok, ok-injective, else-ok, arith,
  some-injective,
}
use ouf_mcp_server.Orchestration.Domain.{Time}
use ouf_mcp_server.Operational.Incidents.{Item, incident_before}
use ouf_mcp_server.Operational.Frames.{Codec}
use ouf_mcp_server.Operational.Pages.{
  OwnerReply, CursorOwnerPage, is_sorted, get_elem?, last_of, decode_items, sorted_page, add_item,
  accept_items, decode_cursor_owner_page, unusable, bad_tokens, bad_next,
}

module _ {A : Type 0} where
  get_elem?-ltb : (xs : List A) (n : ℕ) → ltb n (length xs) ≡ is_some (get_elem? xs n)
  unfolding get_elem?
  get_elem?-ltb [] n = ground arith
  get_elem?-ltb (x ∷ xs) zero = ground arith
  get_elem?-ltb (x ∷ xs) (suc n) = ground (arith, get_elem?-ltb xs n)

  is_some-true : (o : Option A) → is_some o ≡ true → (x : A) × (o ≡ some x)
  is_some-true none h = cc
  is_some-true (some x) h = (x, refl)

  is_some-false : (o : Option A) → is_some o ≡ false → o ≡ none
  is_some-false none h = refl
  is_some-false (some x) h = cc

  pub get_elem?-some :
      (xs : List A) (n : ℕ) → ltb n (length xs) ≡ true → (x : A) × (get_elem? xs n ≡ some x)
  get_elem?-some xs n h = is_some-true (get_elem? xs n) (sym (get_elem?-ltb xs n) ∙ h)

  pub get_elem?-none : (xs : List A) (n : ℕ) → ltb n (length xs) ≡ false → get_elem? xs n ≡ none
  get_elem?-none xs n h = is_some-false (get_elem? xs n) (sym (get_elem?-ltb xs n) ∙ h)

  pub last_of-get_elem? :
      (xs : List A) (n : ℕ) {x : A}
      → get_elem? xs n ≡ some x
      → get_elem? xs (suc n) ≡ none
      → last_of xs ≡ some x
  unfolding get_elem? last_of
  last_of-get_elem? [] n h e = cc
  last_of-get_elem? (x ∷ []) zero h e = h
  last_of-get_elem? (x ∷ []) (suc n) h e = cc
  last_of-get_elem? (x ∷ y ∷ xs) zero h e = cc
  last_of-get_elem? (x ∷ y ∷ xs) (suc n) h e = last_of-get_elem? (y ∷ xs) n h e

  pub last_of-cons : (x : A) (xs : List A) → (y : A) × (last_of (x ∷ xs) ≡ some y)
  unfolding last_of
  last_of-cons x [] = (x, refl)
  last_of-cons x (y ∷ xs) = last_of-cons y xs

  pub is_sorted-get_elem? :
      (before : A → A → Bool) (xs : List A) (n : ℕ) {x y : A}
      → is_sorted before xs ≡ true
      → get_elem? xs n ≡ some x
      → get_elem? xs (suc n) ≡ some y
      → before y x ≡ false
  unfolding get_elem? is_sorted
  is_sorted-get_elem? before [] n s h e = cc
  is_sorted-get_elem? before (x ∷ []) zero s h e = cc
  is_sorted-get_elem? before (x ∷ []) (suc n) s h e = cc
  is_sorted-get_elem? before (x ∷ y ∷ xs) zero s h e =
      let p : before y x ≡ false = ground arith in
      rw (sym (some-injective h), sym (some-injective e)) p
  is_sorted-get_elem? before (x ∷ y ∷ xs) (suc n) s h e =
      is_sorted-get_elem? before (y ∷ xs) n (ground arith) h e

-- A page in order, of which another page follows only where it holds an item.
abbrev pub IsPage : Codec → CursorOwnerPage → Type 0
IsPage codec page =
    (is_sorted (incident_before codec.parse_time) page.items ≡ true)
    × (blank page.next_cursor ≡ false → (y : Item) × (last_of page.items ≡ some y))

add_item-length :
    (bad : Bool) (item : Item) (items : Option (List Item)) (n : ℕ) {r : List Item}
    → ((s : List Item) → items ≡ some s → length s ≡ n)
    → add_item bad item items ≡ some r
    → length r ≡ suc n
add_item-length true item items n k h = cc
add_item-length false item none n k h = cc
add_item-length false item (some s) n k h = ground (arith, ap length (some-injective h), k s refl)

decode_items-length :
    (name : String) (items : List (Option Item)) (seen : List String) {r : List Item}
    → decode_items name seen items ≡ some r
    → length r ≡ length items
unfolding decode_items
decode_items-length name [] seen h = ground (arith, ap length (some-injective h))
decode_items-length name (none ∷ rest) seen h = cc
decode_items-length name (some fields ∷ rest) seen h =
    add_item-length _ _ _ (length rest) (λ s e. decode_items-length name rest _ e) h

last_of-length : (s : List Item) → length s ≡ 100 → (y : Item) × (last_of s ≡ some y)
last_of-length [] h = cc
last_of-length (x ∷ s) h = last_of-cons x s

sorted_page-IsPage :
    (codec : Codec) (reply : OwnerReply) (items : Option (List Item)) (n : ℕ)
    {page : CursorOwnerPage}
    → ((s : List Item) → items ≡ some s → length s ≡ n)
    → (blank reply.next_cursor ≡ false → n ≡ 100)
    → sorted_page codec reply items ≡ ok page
    → IsPage codec page
sorted_page-IsPage codec reply none n k c h = cc
sorted_page-IsPage codec reply (some s) n k c h =
    let sorted = else-ok (not (is_sorted (incident_before codec.parse_time) s)) _ _ h in
    subst (IsPage codec) (ok-injective sorted.1)
      (not-false _ sorted.0, λ b. last_of-length s (k s refl ∙ c b))

-- The guards of the page, each of which a page that was accepted passed.
accept_items-IsPage :
    (codec : Codec) (name : String) (now : Time) (reply : OwnerReply)
    (items : Option (List (Option Item))) {page : CursorOwnerPage}
    → accept_items codec name now reply items ≡ ok page
    → IsPage codec page
accept_items-IsPage codec name now reply none h = cc
accept_items-IsPage codec name now reply (some items) h =
    let a = else-ok (unusable codec name now reply items) _ _ h in
    let b = else-ok (bad_tokens codec reply) _ _ a.1 in
    let c = else-ok (bad_next codec reply items) _ _ b.1 in
    sorted_page-IsPage codec reply (decode_items name [] items) (length items)
      (λ s e. decode_items-length name items [] e) (λ nb. ground (arith, c.0)) c.1

pub decode_cursor_owner_page-IsPage :
    (codec : Codec) (reply : Option (OwnerReply × Bool)) (name : String) (now : Time)
    {page : CursorOwnerPage}
    → decode_cursor_owner_page codec reply name now ≡ ok page
    → IsPage codec page
unfolding decode_cursor_owner_page
decode_cursor_owner_page-IsPage codec none name now h = cc
decode_cursor_owner_page-IsPage codec (some (reply, unique)) name now h =
    accept_items-IsPage codec name now reply reply.items (else-ok (not unique) _ _ h).1
