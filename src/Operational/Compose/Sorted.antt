-- ===== src/Operational/Compose/Sorted.antt =====
-- `compose` of internal/operational/cursor_composer.go shows the incidents in their order.
use ouf_mcp_server.Prelude.{
  ℕ, zero, suc, Bool, true, false, not, Option, none, some, List, [], ◌∷◌, ◌≡◌, refl, sym, ap, ◌∙◌,
  subst, All, Result, ok, ◌>>=◌, ok-injective, bind-ok, arith, Bool-cases, inl, inr, some-injective,
  if-true, if-false,
}
use ouf_mcp_server.Operational.Incidents.{Item, incident_before}
use ouf_mcp_server.Operational.Incidents.Order.{incident_before-IsStrictOrder}
use ouf_mcp_server.Operational.Query.{CursorError}
use ouf_mcp_server.Operational.Frames.{OwnerPosition, CursorFrame, CursorNode, Codec}
use ouf_mcp_server.Operational.Pages.{get_elem?, is_sorted}
use ouf_mcp_server.Operational.Pages.Decoded.{IsPage, is_sorted-get_elem?, last_of-get_elem?}
use ouf_mcp_server.Operational.Reads.{Owners}
use ouf_mcp_server.Operational.Refill.{Pages, Heads, before, refill, self_cursor_incident}
use ouf_mcp_server.Operational.Refill.Ready.{may_follow, Fits, names, Apart, refill-IsRefilled}
use ouf_mcp_server.Operational.Compose.{
  Progress, Scan, Composed, with_owners, advance, choose, own, owned, decide, prepend, stop,
  append_item, rounds, Sink, compose,
}
use ouf_mcp_server.Operational.Compose.Delivered.{conclude-Keeps}
use ouf_mcp_server.Operational.Compose.Chosen.{head_at, Beaten, Offers, Found, choose-Found}

module _ (codec : Codec) (world : Owners) where
  -- The state between two rounds, where the last item shown is given.
  pub record IsOngoing (last : Option Item) (p : Progress) : Type 0 where
    pub apart : Apart (names p.frame.owners)
    pub fits : All (Fits codec last p.pages) p.frame.owners
    pub self_follows :
        (self : Item) → self_cursor_incident p.frame ≡ some self → may_follow codec last self ≡ true

  -- The items are sorted, and the first of them may follow the last one shown.
  abbrev pub Continues : Option Item → List Item → Type 0
  Continues last items =
      (is_sorted (incident_before codec.parse_time) items ≡ true)
      × ((x : Item) → get_elem? items 0 ≡ some x → may_follow codec last x ≡ true)

  Continues-cons :
      (last : Option Item) (x : Item) (items : List Item)
      → may_follow codec last x ≡ true
      → Continues (some x) items
      → Continues last (x ∷ items)
  unfolding is_sorted get_elem?
  Continues-cons last x [] f c =
      (refl, λ y e. subst (λ z. may_follow codec last z ≡ true) (some-injective e) f)
  Continues-cons last x (y ∷ items) f c = (
    ground (arith, c.0, c.1 y refl),
    λ z e. subst (λ v. may_follow codec last v ≡ true) (some-injective e) f,
  )

  Beaten-Fits :
      (pages : Pages) (c : Item) (owner : OwnerPosition)
      → Beaten codec none c pages owner
      → Fits codec (some c) pages owner
  Beaten-Fits pages c owner beaten undone =
      let (x, shows, later, page) = beaten undone in
      record {
        sound = page;
        head = λ y e.
            ap not (subst (λ z. before codec z c ≡ false) (some-injective (sym shows ∙ e)) later);
        tail = λ l y e n t. cc (shows, n);
      }

  other_owners-Fits :
      (pages : Pages) (c : Item) (owners : List OwnerPosition)
      → All (Beaten codec none c pages) owners
      → All (Fits codec (some c) pages) owners
  other_owners-Fits pages c [] beaten = tt
  other_owners-Fits pages c (owner ∷ rest) beaten =
      (Beaten-Fits pages c owner beaten.0, other_owners-Fits pages c rest beaten.1)

  -- After the winner is shown, the owners fit it.
  advance-Fits :
      (pages : Pages) (k : ℕ) (c : Item) (last : Option Item) (owners : List OwnerPosition)
      → All (Beaten codec none c pages) owners
      → Offers codec last k c pages owners
      → All (Fits codec (some c) pages) (advance k owners)
  unfolding advance get_elem?
  advance-Fits pages k c last [] beaten offer = tt
  advance-Fits pages zero c last (owner ∷ rest) beaten (winner, at, shows, follows, page) =
      let same : owner ≡ winner = some-injective at in
      let shown : head_at pages owner ≡ some c =
        subst (λ o. head_at pages o ≡ some c) (sym same) shows in
      let sound : IsPage codec (pages owner.name) =
        subst (λ o. IsPage codec (pages o.name)) (sym same) page in
      (
        λ undone. record {
          sound = sound;
          head = λ y e. ap not (
              is_sorted-get_elem? (before codec) (pages owner.name).items owner.offset sound.0 shown
                e);
          tail = λ l y e n t.
              some-injective
                (sym t ∙ last_of-get_elem? (pages owner.name).items owner.offset shown n ∙ e);
        },
        other_owners-Fits pages c rest beaten.1,
      )
  advance-Fits pages (suc k) c last (owner ∷ rest) beaten offer =
      (Beaten-Fits pages c owner beaten.0, advance-Fits pages k c last rest beaten.1 offer)

  advance-names : (k : ℕ) (owners : List OwnerPosition) → names (advance k owners) ≡ names owners
  unfolding advance
  advance-names k [] = refl
  advance-names zero (owner ∷ rest) = refl
  advance-names (suc k) (owner ∷ rest) = cc (advance-names k rest)

  -- What the rounds that follow promise, after the item that was shown.
  abbrev Resumes : (Progress → Result CursorError Scan) → Type 0
  Resumes again =
      (x : Item) (q : Progress) (s : Scan)
      → IsOngoing (some x) q
      → again q ≡ ok s
      → Continues (some x) s.items

  resumed :
      (last : Option Item) (again : Progress → Result CursorError Scan) (q : Progress) (x : Item)
      {scan : Scan}
      → Resumes again
      → IsOngoing (some x) q
      → may_follow codec last x ≡ true
      → (again q >>= λ s. ok (prepend codec x s)) ≡ ok scan
      → Continues last scan.items
  resumed last again q x resumes ongoing follows h = bind-ok (again q) h (λ s p k.
      subst (λ t. Continues last t.items) (ok-injective k)
        (Continues-cons last x s.items follows (resumes x q s ongoing p)))

  stopped :
      (last : Option Item) (p : Progress) (pending : Bool) {scan : Scan}
      → stop codec p pending ≡ ok scan
      → Continues last scan.items
  unfolding is_sorted get_elem?
  stopped last p pending h = subst (λ t. Continues last t.items) (ok-injective h) (refl, λ x e. cc)

  done_owners-Fits :
      (pages : Pages) (last : Option Item) (owners : List OwnerPosition)
      → All (λ o. ◌≡◌ {A = Bool} o.done true) owners
      → All (Fits codec last pages) owners
  done_owners-Fits pages last [] done = tt
  done_owners-Fits pages last (owner ∷ rest) done =
      (λ undone. cc (done.0, undone), done_owners-Fits pages last rest done.1)

  AtMost-self :
      (c self : Item)
      → before codec self c ≡ true
      → (x : Item) → before codec x c ≡ false
      → before codec x self ≡ false
  AtMost-self c self h x later =
      let order = incident_before-IsStrictOrder codec.parse_time in
      ground (arith, order.transitive x self c)

  self_owners-Fits :
      (pages : Pages) (c self : Item) (owners : List OwnerPosition)
      → before codec self c ≡ true
      → All (Beaten codec none c pages) owners
      → All (Fits codec (some self) pages) owners
  self_owners-Fits pages c self [] h beaten = tt
  self_owners-Fits pages c self (owner ∷ rest) h beaten = (
    λ undone.
        let (x, shows, later, page) = beaten.0 undone in
        Beaten-Fits pages self owner (λ d. (x, shows, AtMost-self c self h x later, page)) undone,
    self_owners-Fits pages c self rest h beaten.1,
  )

  same_self :
      (frame : CursorFrame) (owners : List OwnerPosition)
      → self_cursor_incident frame ≡ self_cursor_incident (with_owners frame owners)
  unfolding self_cursor_incident
  same_self frame owners = refl

  -- A round that shows an item of an owner.
  owned-Continues :
      (last : Option Item) (again : Progress → Result CursorError Scan) (base : CursorFrame)
      (heads : Heads) (w : ℕ) (c : Item) {scan : Scan}
      → Resumes again
      → Apart (names heads.owners)
      → ((self : Item) → self_cursor_incident base ≡ some self → before codec self c ≡ false)
      → Found codec last heads.pages 0 none heads.owners (some (w, c))
      → append_item codec again (with_owners base heads.owners) heads (owned w c) ≡ ok scan
      → Continues last scan.items
  unfolding self_cursor_incident
  owned-Continues last again base heads w c go apart later (beaten, bound, inl e) h = cc
  owned-Continues last again base heads w c go apart later (beaten, bound, inr (k, e, offer)) h =
      let (owner, at, shows, follows, page) = offer in
      let at-w : k ≡ w = omega (arith, e) in
      resumed last again _ c go
        (record {
          apart = subst Apart (sym (advance-names w heads.owners)) apart;
          fits =
              advance-Fits heads.pages w c last heads.owners beaten
                (subst (λ n. Offers codec last n c heads.pages heads.owners) at-w offer);
          self_follows = λ self q. ap not (later self q);
        })
        follows h

  -- A round that shows the incident of the server itself.
  own-Continues :
      (last : Option Item) (again : Progress → Result CursorError Scan) (base : CursorFrame)
      (heads : Heads) (self : Item) {scan : Scan}
      → Resumes again
      → Apart (names heads.owners)
      → may_follow codec last self ≡ true
      → All (Fits codec (some self) heads.pages) heads.owners
      → append_item codec again (with_owners base heads.owners) heads (own self) ≡ ok scan
      → Continues last scan.items
  unfolding self_cursor_incident
  own-Continues last again base heads self go apart follows fits h =
      resumed last again _ self go (record { apart = apart; fits = fits; self_follows = λ x q. cc })
        follows h

  -- The rest of a round, by the incident of the server itself and the first item of the owners.
  append_item-Continues :
      (last : Option Item) (again : Progress → Result CursorError Scan) (base : CursorFrame)
      (heads : Heads) (self : Option Item) (best : Option (ℕ × Item)) {scan : Scan}
      → Resumes again
      → Apart (names heads.owners)
      → self_cursor_incident base ≡ self
      → ((x : Item) → self ≡ some x → may_follow codec last x ≡ true)
      → Found codec last heads.pages 0 none heads.owners best
      → append_item codec again (with_owners base heads.owners) heads (decide codec self best)
        ≡ ok scan
      → Continues last scan.items
  append_item-Continues last again base heads none none go apart mine follows found h =
      stopped last _ false h
  append_item-Continues last again base heads none (some (w, c)) go apart mine follows found h =
      owned-Continues last again base heads w c go apart (λ self q. cc (mine, q)) found h
  append_item-Continues last again base heads (some self) none go apart mine follows found h =
      own-Continues last again base heads self go apart (follows self refl)
        (done_owners-Fits heads.pages (some self) heads.owners found.1) h
  append_item-Continues last again base heads (some self) (some (w, c)) go apart mine follows found
        h =
      elim (Bool-cases (before codec self c)) [
        | inl e ↦
            own-Continues last again base heads self go apart (follows self refl)
              (self_owners-Fits heads.pages c self heads.owners e found.0) (rw e at h)
        | inr e ↦
            owned-Continues last again base heads w c go apart
              (λ x q. subst (λ y. before codec y c ≡ false) (some-injective (sym mine ∙ q)) e) found
              (rw e at h)
      ]

  rounds-Continues :
      (n : ℕ) (last : Option Item) (p : Progress) {scan : Scan}
      → IsOngoing last p
      → rounds codec world n p ≡ ok scan
      → Continues last scan.items
  unfolding rounds
  rounds-Continues zero last p ongoing h = stopped last p false h
  rounds-Continues (suc n) last p ongoing h =
      bind-ok (refill codec world p.frame p.frame.owners p.pages p.calls) h (λ heads q k.
        let left =
          refill-IsRefilled codec world last p.frame p.frame.owners p.pages p.calls ongoing.apart
            ongoing.fits q in
        elim (Bool-cases heads.unknown) [
          | inl u ↦ stopped last _ true (if-true heads.unknown _ _ u k)
          | inr u ↦
              bind-ok (choose codec heads.pages 0 none heads.owners)
                (if-false heads.unknown _ _ u k)
                (λ best r m.
                  append_item-Continues last (rounds codec world n) p.frame heads
                    (self_cursor_incident (with_owners p.frame heads.owners)) best
                    (λ x t s going e. rounds-Continues n (some x) t going e)
                    (subst Apart (sym left.named) ongoing.apart) (same_self p.frame heads.owners)
                    (λ x e. ongoing.self_follows x (same_self p.frame heads.owners ∙ e))
                    (choose-Found codec last heads.pages 0 none heads.owners best (left.ready u) r)
                    m)
        ])

pages-Fits :
    (codec : Codec) (pages : Pages) (owners : List OwnerPosition)
    → All (λ o. IsPage codec (pages o.name)) owners
    → All (Fits codec none pages) owners
pages-Fits codec pages [] sound = tt
pages-Fits codec pages (owner ∷ rest) sound = (
  λ undone. record { sound = sound.0; head = λ x e. refl; tail = λ l y e n t. cc },
  pages-Fits codec pages rest sound.1,
)

-- The incidents that `compose` shows are sorted by incidentBefore, also across the owners and their pages, where
-- the owners have different names and the pages given passed the decoder.
pub compose-is_sorted :
    (codec : Codec) (world : Owners) (sink : Sink) (node : CursorNode) (pages : Pages) (calls : ℕ)
    {result : Composed}
    → Apart (names node.frame.owners)
    → All (λ o. IsPage codec (pages o.name)) node.frame.owners
    → compose sink codec world node pages calls ≡ ok result
    → is_sorted (incident_before codec.parse_time) result.items ≡ true
unfolding compose
compose-is_sorted codec world sink node pages calls apart sound h =
    bind-ok
      (rounds codec world node.frame.page_limit
        (record { frame = node.frame; pages = pages; calls = calls }))
      h
      (λ scan p k.
        rw (conclude-Keeps sink node scan k).items
          (rounds-Continues codec world node.frame.page_limit none _
            (record {
              apart = apart;
              fits = pages-Fits codec pages node.frame.owners sound;
              self_follows = λ self e. refl;
            })
            p).0)
