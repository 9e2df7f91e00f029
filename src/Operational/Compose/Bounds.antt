-- ===== src/Operational/Compose/Bounds.antt =====
-- The sizes of a page of `compose` of internal/operational/cursor_composer.go, and when it is the last.
use ouf_mcp_server.Prelude.{
  ℕ, zero, suc, ◌≤◌, ◌||◌, Option, none, some, List, [], ◌∷◌, ◌≡◌, sym, ap, subst, ltb, leb, length,
  blank, ◌differs◌, Result, ok, ◌>>=◌, ok-injective, bind-ok, else-ok, arith, Bool-cases, inl, inr,
  if-true, if-false,
}
use ouf_mcp_server.Operational.Incidents.{Item}
use ouf_mcp_server.Operational.Query.{CursorError}
use ouf_mcp_server.Operational.Frames.{OwnerPosition, CursorFrame, CursorNode, Codec}
use ouf_mcp_server.Operational.Pages.{CursorOwnerPage, get_elem?, last_of}
use ouf_mcp_server.Operational.Reads.{Owners, read_page}
use ouf_mcp_server.Operational.Refill.{
  Pages, Refilled, Heads, out_of_order, accept_page, exhausted, refused_publication, refill_owner,
  refill, self_cursor_incident,
}
use ouf_mcp_server.Operational.Compose.{
  Progress, Scan, Composed, with_owners, choose, Choice, nothing, own, owned, decide, prepend,
  append_item, rounds, Sink, compose,
}
use ouf_mcp_server.Operational.Compose.Delivered.{conclude-Keeps}

module _ (codec : Codec) (world : Owners) where
  accept_page-calls :
      (owner : OwnerPosition) (pages : Pages) (calls : ℕ) (next : CursorOwnerPage)
      (refused : Option CursorError) {r : Refilled}
      → accept_page codec world owner pages calls next refused ≡ ok r
      → r.calls ≡ calls
  accept_page-calls owner pages calls next (some e) h = cc
  accept_page-calls owner pages calls next none h =
      let linked =
        else-ok
          (next.snapshot_ref differs owner.snapshot_ref
            || next.cursor differs (pages owner.name).next_cursor)
          _ _ h in
      let ordered =
        else-ok
          (out_of_order codec world (last_of (pages owner.name).items) (get_elem? next.items 0)) _ _
          linked.1 in
      sym (ap (λ (r : Refilled). r.calls) (ok-injective ordered.1))

  exhausted-calls :
      (frame : CursorFrame) (owner : OwnerPosition) (pages : Pages) (calls : ℕ) {r : Refilled}
      → calls ≤ 3
      → exhausted codec world frame owner pages calls ≡ ok r
      → r.calls ≤ 3
  exhausted-calls frame owner pages calls few h =
      elim (Bool-cases (blank (pages owner.name).next_cursor)) [
        | inl b ↦ omega (
          arith,
          few,
          ap (λ (r : Refilled). r.calls)
              (ok-injective (if-true (blank (pages owner.name).next_cursor) _ _ b h)),
        )
        | inr b ↦
            let k = if-false (blank (pages owner.name).next_cursor) _ _ b h in
            elim (Bool-cases (leb 3 calls)) [
              | inl c ↦ omega (
                arith,
                few,
                ap (λ (r : Refilled). r.calls) (ok-injective (if-true (leb 3 calls) _ _ c k)),
              )
              | inr c ↦
                  bind-ok
                    (read_page codec world calls frame.filters owner.name
                      (pages owner.name).next_cursor frame.publication_coverage)
                    (else-ok (leb 200 owner.page_index) _ _ (if-false (leb 3 calls) _ _ c k)).1
                    (λ next p m.
                      let same =
                        accept_page-calls owner pages (suc calls) next
                          (refused_publication codec world frame next owner.name) m in
                      ground (arith, same, c))
            ]
      ]

  refill_owner-calls :
      (frame : CursorFrame) (owner : OwnerPosition) (pages : Pages) (calls : ℕ) {r : Refilled}
      → calls ≤ 3
      → refill_owner codec world frame owner pages calls ≡ ok r
      → r.calls ≤ 3
  unfolding refill_owner
  refill_owner-calls frame owner pages calls few h = elim (Bool-cases owner.done) [
    | inl d ↦
        omega
          (arith, few, ap (λ (r : Refilled). r.calls) (ok-injective (if-true owner.done _ _ d h)))
    | inr d ↦
        let k = if-false owner.done _ _ d h in
        elim (Bool-cases (ltb owner.offset (length (pages owner.name).items))) [
          | inl e ↦ omega (
            arith,
            few,
            ap (λ (r : Refilled). r.calls)
                (ok-injective
                  (if-true (ltb owner.offset (length (pages owner.name).items)) _ _ e k)),
          )
          | inr e ↦
              exhausted-calls frame owner pages calls few
                (if-false (ltb owner.offset (length (pages owner.name).items)) _ _ e k)
        ]
  ]

  refill-calls :
      (frame : CursorFrame) (owners : List OwnerPosition) (pages : Pages) (calls : ℕ) {t : Heads}
      → calls ≤ 3
      → refill codec world frame owners pages calls ≡ ok t
      → t.calls ≤ 3
  unfolding refill
  refill-calls frame [] pages calls few h =
      omega (arith, few, ap (λ (t : Heads). t.calls) (ok-injective h))
  refill-calls frame (owner ∷ rest) pages calls few h =
      bind-ok (refill_owner codec world frame owner pages calls) h (λ r p k.
        elim (Bool-cases r.unknown) [
          | inl u ↦
              omega
                (arith, few, ap (λ (t : Heads). t.calls) (ok-injective (if-true r.unknown _ _ u k)))
          | inr u ↦
              bind-ok (refill codec world frame rest r.pages r.calls) (if-false r.unknown _ _ u k)
                (λ s q e.
                  let least =
                    refill-calls frame rest r.pages r.calls
                      (refill_owner-calls frame owner pages calls few p) q in
                  omega (arith, least, ap (λ (t : Heads). t.calls) (ok-injective e)))
        ])

  -- At most as many items as rounds, and at most three reads.
  record Within (n : ℕ) (scan : Scan) : Type 0 where
    items : length scan.items ≤ n
    calls : scan.progress.calls ≤ 3

  prepended :
      (n : ℕ) (x : Item) (again : Progress → Result CursorError Scan) (q : Progress) {scan : Scan}
      → ((s : Scan) → again q ≡ ok s → Within n s)
      → (again q >>= λ s. ok (prepend codec x s)) ≡ ok scan
      → Within (suc n) scan
  prepended n x again q go h = bind-ok (again q) h (λ s p k.
      subst (Within (suc n)) (ok-injective k)
        (record { items = omega (arith, (go s p).items); calls = (go s p).calls }))

  append_item-Within :
      (n : ℕ) (again : Progress → Result CursorError Scan) (frame : CursorFrame) (heads : Heads)
      (choice : Choice) {scan : Scan}
      → ((q : Progress) (s : Scan) → q.calls ≤ 3 → again q ≡ ok s → Within n s)
      → heads.calls ≤ 3
      → append_item codec again frame heads choice ≡ ok scan
      → Within (suc n) scan
  append_item-Within n again frame heads nothing go few h =
      subst (Within (suc n)) (ok-injective h) (record { items = omega arith; calls = few })
  append_item-Within n again frame heads (own x) go few h =
      prepended n x again _ (λ s p. go _ s few p) h
  append_item-Within n again frame heads (owned w x) go few h =
      prepended n x again _ (λ s p. go _ s few p) h

  rounds-Within :
      (n : ℕ) (p : Progress) {scan : Scan}
      → p.calls ≤ 3
      → rounds codec world n p ≡ ok scan
      → Within n scan
  unfolding rounds
  rounds-Within zero p few h =
      subst (Within 0) (ok-injective h) (record { items = omega arith; calls = few })
  rounds-Within (suc n) p few h =
      bind-ok (refill codec world p.frame p.frame.owners p.pages p.calls) h (λ heads q k.
        let least = refill-calls p.frame p.frame.owners p.pages p.calls few q in
        elim (Bool-cases heads.unknown) [
          | inl u ↦
              subst (Within (suc n)) (ok-injective (if-true heads.unknown _ _ u k))
                (record { items = omega arith; calls = least })
          | inr u ↦
              bind-ok (choose codec heads.pages 0 none heads.owners)
                (if-false heads.unknown _ _ u k)
                (λ best r m.
                  append_item-Within n (rounds codec world n) (with_owners p.frame heads.owners)
                    heads
                    (decide codec (self_cursor_incident (with_owners p.frame heads.owners)) best)
                    (λ t s c e. rounds-Within n t c e) least m)
        ])

-- A page shows at most PageLimit incidents and makes at most three reads of owners, the two that came
-- before it included.
pub compose-bounds :
    (sink : Sink) (codec : Codec) (world : Owners) (node : CursorNode) (pages : Pages) (calls : ℕ)
    {result : Composed}
    → calls ≤ 3
    → compose sink codec world node pages calls ≡ ok result
    → (length result.items ≤ node.frame.page_limit) × (result.owner_calls ≤ 3)
unfolding compose
compose-bounds sink codec world node pages calls few h =
    bind-ok
      (rounds codec world node.frame.page_limit
        (record { frame = node.frame; pages = pages; calls = calls }))
      h
      (λ scan p k.
        let kept = conclude-Keeps sink node scan k in
        let w =
          rounds-Within codec world node.frame.page_limit
            (record { frame = node.frame; pages = pages; calls = calls }) few p in
        (omega (arith, w.items, ap length kept.items), omega (arith, w.calls, kept.calls)))
