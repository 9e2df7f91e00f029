-- ===== src/Operational/Serve/Served.antt =====
-- What a page promises that `CursorComposer.Page` of internal/operational/cursor_composer.go or
-- `PublicationComposer.Page` of internal/operational/publication_composer.go returns.

use ouf_mcp_server.Prelude.{
  ℕ, suc, ◌≤◌, String, Bool, true, false, not, ◌||◌, Option, none, some, List, [], ◌∷◌, ◌≡◌, refl,
  ◌∙◌, subst, length, All, ltb, ltb→ge, if◌then◌else◌, ◌is◌, ◌differs◌, ◌==◌, has, is_refl, is→≡,
  is_some, Result, ok, ok-injective, bind-ok, else-ok, arith, Bool-cases, inl, inr, &&-true,
  not-false, differs→≡, ||-false,
}
use ouf_mcp_server.Orchestration.Domain.{Uuid}
use ouf_mcp_server.Operational.Incidents.{valid_status, agree, incident_before}
use ouf_mcp_server.Operational.Query.{CursorError, operational_query}
use ouf_mcp_server.Operational.Frames.{
  OwnerPosition, CursorFrame, CursorBinding, CursorNode, Codec, cursor_profile,
}
use ouf_mcp_server.Operational.Validity.{
  valid_owner, valid_owners, validate_publication_capture, check_positions, validate_cursor_frame,
}
use ouf_mcp_server.Operational.Pages.{CursorOwnerPage, is_sorted}
use ouf_mcp_server.Operational.Pages.Decoded.{IsPage}
use ouf_mcp_server.Operational.Reads.{Owners, read_page, same_owner_page}
use ouf_mcp_server.Operational.Reads.Checked.{read_page-IsPage}
use ouf_mcp_server.Operational.Refill.{Pages, put_page}
use ouf_mcp_server.Operational.Refill.Ready.{names, Absent, Apart}
use ouf_mcp_server.Operational.Compose.{Composed}
use ouf_mcp_server.Operational.Compose.Sorted.{compose-is_sorted}
use ouf_mcp_server.Operational.Compose.Bounds.{compose-bounds}
use ouf_mcp_server.Operational.Serve.{
  CursorStore, Request, empty_page, current_self, unless, covered_page, read_owners, sink_of,
  changed_self, serve, page,
}

pub unless-ok :
    {A : Type 0} (e : Option CursorError) (rest : Result CursorError A) {r : A}
    → unless e rest ≡ ok r
    → (e ≡ none) × (rest ≡ ok r)
unless-ok (some e) rest h = cc
unless-ok none rest h = (refl, h)

seen-Absent :
    (codec : Codec) (seen : List String) (owners : List OwnerPosition) (name : String)
    → has seen name ≡ true
    → valid_owners codec seen owners ≡ true
    → Absent name (names owners)
unfolding valid_owners
seen-Absent codec seen [] name known h = tt
seen-Absent codec seen (owner ∷ rest) name known h =
    let (first, others) = &&-true (valid_owner codec seen owner) _ h in
    let unseen : has seen owner.name ≡ false = ground (arith, first) in
    (
      elim (Bool-cases (name is owner.name)) [
        | inl e ↦ cc (subst (λ n. has seen n ≡ true) (is→≡ name owner.name e) known, unseen)
        | inr e ↦ e
      ],
      seen-Absent codec (owner.name ∷ seen) rest name (ground (arith, known)) others,
    )

valid_owners-Apart :
    (codec : Codec) (seen : List String) (owners : List OwnerPosition)
    → valid_owners codec seen owners ≡ true
    → Apart (names owners)
unfolding valid_owners
valid_owners-Apart codec seen [] h = tt
valid_owners-Apart codec seen (owner ∷ rest) h =
    let (first, others) = &&-true (valid_owner codec seen owner) _ h in
    (
      seen-Absent codec (owner.name ∷ seen) rest owner.name (ground (arith, is_refl owner.name))
          others,
      valid_owners-Apart codec (owner.name ∷ seen) rest others,
    )

else-none :
    (b : Bool) (e : CursorError) (k : Option CursorError)
    → (if b then some e else k) ≡ none
    → (b ≡ false) × (k ≡ none)
else-none true e k h = cc
else-none false e k h = (refl, h)

check_positions-Apart :
    (codec : Codec) (frame : CursorFrame) (captured : Option CursorError)
    → check_positions codec frame captured ≡ none
    → Apart (names frame.owners)
check_positions-Apart codec frame (some e) h = cc
check_positions-Apart codec frame none h =
    valid_owners-Apart codec [] frame.owners
      (not-false _ (else-none (not (valid_owners codec [] frame.owners)) _ _ h).0)

-- A frame that passed the check names its owners differently.
validate_cursor_frame-Apart :
    (codec : Codec) (frame : CursorFrame)
    → validate_cursor_frame codec frame ≡ none
    → Apart (names frame.owners)
unfolding validate_cursor_frame
validate_cursor_frame-Apart codec frame h =
    let shape =
      else-none
        (frame.profile differs cursor_profile
          || ltb frame.page_limit 1
          || ltb 100 frame.page_limit
          || ltb 200 frame.page_number
          || not (valid_status frame.self_status)
          || not (length frame.owners == 2))
        _ _ h in
    let query =
      else-none (not (is_some (operational_query codec.is_time (codec.members frame.filters) true)))
        _ _ shape.1 in
    check_positions-Apart codec frame (validate_publication_capture codec frame) query.1

put-IsPage :
    (codec : Codec) (pages : Pages) (name : String) (got : CursorOwnerPage) (n : String)
    → IsPage codec (pages n)
    → IsPage codec got
    → IsPage codec (put_page pages name got n)
put-IsPage codec pages name got n old new = elim (Bool-cases (n is name)) [
  | inl e ↦ rw e new
  | inr e ↦ rw e old
]

read_owners-IsPage :
    (codec : Codec) (store : CursorStore) (world : Owners) (frame : CursorFrame) (calls : ℕ)
    (owners : List OwnerPosition) (pages : Pages) {read : Pages}
    → ((n : String) → IsPage codec (pages n))
    → read_owners codec store world frame calls owners pages ≡ ok read
    → (n : String) → IsPage codec (read n)
unfolding read_owners
read_owners-IsPage codec store world frame calls [] pages sound h n =
    subst (λ p. IsPage codec (p n)) (ok-injective h) (sound n)
read_owners-IsPage codec store world frame calls (owner ∷ rest) pages sound h n =
    bind-ok
      (read_page codec world calls frame.filters owner.name owner.cursor frame.publication_coverage)
      h
      (λ got p k.
        let checked = unless-ok (covered_page codec store world frame got owner.name) _ k in
        let same = else-ok (not (same_owner_page codec owner got)) _ _ checked.1 in
        read_owners-IsPage codec store world frame (suc calls) rest (put_page pages owner.name got)
          (λ m. put-IsPage codec pages owner.name got m (sound m) (
            read_page-IsPage codec world calls frame.filters owner.name owner.cursor
              frame.publication_coverage p))
          same.1 n)

-- Each owner has a page in the map once all are read.
every-owner :
    (codec : Codec) (pages : Pages) (owners : List OwnerPosition)
    → ((n : String) → IsPage codec (pages n))
    → All (λ o. IsPage codec (pages o.name)) owners
every-owner codec pages [] sound = tt
every-owner codec pages (owner ∷ rest) sound =
    (sound owner.name, every-owner codec pages rest sound)

-- The conditions under which a node is served, and what is shown then.
pub record IsServed (codec : Codec) (world : Owners) (coverage : Bool) (request : Request)
    (node : CursorNode) (result : Composed) : Type 0 where
  pub valid : validate_cursor_frame codec node.frame ≡ none
  pub covered : agree node.frame.publication_coverage coverage ≡ true
  pub current : world.now ≤ node.expires_at
  pub unchanged :
      current_self request.self_state ≡ ok (node.frame.self_status, node.frame.self_action_required)
  pub sorted : is_sorted (incident_before codec.parse_time) result.items ≡ true
  pub short : length result.items ≤ node.frame.page_limit
  pub frugal : result.owner_calls ≤ 3

agree→≡ : (a b : Bool) → agree a b ≡ true → a ≡ b
agree→≡ a b h = ground arith

serve-IsServed :
    (codec : Codec) (store : CursorStore) (world : Owners) (coverage : Bool) (request : Request)
    (binding : CursorBinding) (node : CursorNode) {result : Composed}
    → serve codec store world coverage request binding node ≡ ok result
    → IsServed codec world coverage request node result
unfolding is_sorted
serve-IsServed codec store world coverage request binding node h =
    let valid = unless-ok (validate_cursor_frame codec node.frame) _ h in
    let kind = else-ok (not (agree node.frame.publication_coverage coverage)) _ _ valid.1 in
    let fresh = else-ok (ltb node.expires_at world.now) _ _ kind.1 in
    bind-ok (read_owners codec store world node.frame 0 node.frame.owners (λ n. empty_page)) fresh.1
      (λ pages p k. bind-ok (current_self request.self_state) k (λ state q m.
        let same = else-ok (changed_self codec store world node.frame state) _ _ m in
        let d = ||-false (state.0 differs node.frame.self_status) _ same.0 in
        let sound =
          read_owners-IsPage codec store world node.frame 0 node.frame.owners (λ n. empty_page)
            (λ n. (refl, λ more. cc)) p in
        let bounds =
          compose-bounds (sink_of codec store world coverage request binding) codec world node pages
            2 (omega arith) same.1 in
        record {
          valid = valid.0;
          covered = not-false _ kind.0;
          current = ltb→ge _ _ fresh.0;
          unchanged = q ∙ (λ i. ok (
            differs→≡ state.0 node.frame.self_status d.0 i,
            agree→≡ state.1 node.frame.self_action_required (not-false _ d.1) i,
          ));
          sorted =
              compose-is_sorted codec world (sink_of codec store world coverage request binding)
                node pages 2 (validate_cursor_frame-Apart codec node.frame valid.0)
                (every-owner codec pages node.frame.owners sound) same.1;
          short = bounds.0;
          frugal = bounds.1;
        }))

-- A page that is returned is one of a stored cursor of the caller: its frame is valid, of the coverage
-- asked for and not expired, the public state of the server is the one captured, and the incidents are
-- sorted by incidentBefore, at most PageLimit of them, after at most three reads of owners.
pub page-IsServed :
    (codec : Codec) (store : CursorStore) (world : Owners) (coverage : Bool) (request : Request)
    (token : Uuid) {result : Composed}
    → page codec store world coverage request token ≡ ok result
    → (binding : CursorBinding) × (node : CursorNode) × (request.binding ≡ ok binding)
      × (store.load token binding ≡ ok node)
      × IsServed codec world coverage request node result
unfolding page
page-IsServed codec store world coverage request token h =
    bind-ok request.binding (else-ok (not request.configured) _ _ h).1 (λ binding p k.
      bind-ok (store.load token binding) k (λ node q m.
        (binding, node, p, q, serve-IsServed codec store world coverage request binding node m)))
