-- ===== src/Operational/Compose/Advance.antt =====
-- A page of `compose` of internal/operational/cursor_composer.go that announces more is not idle.
use ouf_mcp_server.Prelude.{
  ℕ, zero, suc, ◌<◌, Bool, true, false, not, ◌&&◌, ◌||◌, Option, none, some, List, [], ◌∷◌, ◌≡◌,
  ◌≢◌, ◌⊎◌, refl, sym, ap, ◌∙◌, subst, length, All, any, map, if◌then◌else◌, blank, ◌is◌, ◌==◌,
  Result, ok, ◌>>=◌, ok-injective, bind-ok, arith, Bool-cases, Option-cases, inl, inr, if-true,
  if-false,
}
use ouf_mcp_server.Operational.Incidents.{Item}
use ouf_mcp_server.Operational.Query.{CursorError}
use ouf_mcp_server.Operational.Frames.{OwnerPosition, CursorFrame, CursorNode, Codec}
use ouf_mcp_server.Operational.Pages.{get_elem?}
use ouf_mcp_server.Operational.Reads.{Owners}
use ouf_mcp_server.Operational.Refill.{Pages, Heads, before, refill, self_cursor_incident}
use ouf_mcp_server.Operational.Compose.{
  Progress, Scan, Composed, with_owners, better, choose, decide, prepend, append_item, rounds,
  closed, has_more, Sink, compose,
}
use ouf_mcp_server.Operational.Compose.Delivered.{closed_owners, closed_frame, conclude-Keeps}

abbrev AllDone : List OwnerPosition → Type 0
AllDone owners = All (λ o. ◌≡◌ {A = Bool} o.done true) owners

better-some :
    (codec : Codec) (best : Option (ℕ × Item)) (index : ℕ) (x : Item)
    → better codec best index x ≢ none
better-some codec none index x h = cc
better-some codec (some (i, b)) index x h = elim (Bool-cases (before codec x b)) [
  | inl e ↦ cc (rw e at h)
  | inr e ↦ cc (rw e at h)
]

-- The scan finds nothing only where it began with nothing and every owner is done.
choose-none :
    (codec : Codec) (pages : Pages) (index : ℕ) (best : Option (ℕ × Item))
    (owners : List OwnerPosition)
    → choose codec pages index best owners ≡ ok none
    → (best ≡ none) × AllDone owners
unfolding choose
choose-none codec pages index best [] h = (ok-injective h, tt)
choose-none codec pages index best (owner ∷ rest) h = elim (Bool-cases owner.done) [
  | inl d ↦
      let (e, done) = choose-none codec pages (suc index) best rest (if-true owner.done _ _ d h) in
      (e, (d, done))
  | inr d ↦
      let k = if-false owner.done _ _ d h in
      elim (Option-cases (get_elem? (pages owner.name).items owner.offset)) [
        | inl e ↦ cc (rw e at k)
        | inr (x, e) ↦
            let (none-best, done) =
              choose-none codec pages (suc index) (better codec best index x) rest (rw e at k) in
            elim (better-some codec best index x none-best) [ ]
      ]
]

-- The state in which a page announces nothing more.
abbrev Ended : Scan → Type 0
Ended scan =
    (scan.progress.frame.self_consumed || scan.progress.frame.self_status is "HEALTHY" ≡ true)
    × AllDone scan.progress.frame.owners

abbrev Advances : Scan → Type 0
Advances scan = (scan.pending ≡ true) ⊎ ((0 < length scan.items) ⊎ Ended scan)

module _ (codec : Codec) where
  prepended :
      (x : Item) (again : Progress → Result CursorError Scan) (q : Progress) {scan : Scan}
      → (again q >>= λ s. ok (prepend codec x s)) ≡ ok scan
      → Advances scan
  prepended x again q h =
      bind-ok (again q) h (λ s p k. subst Advances (ok-injective k) (inr (inl (omega arith))))

  append_item-Advances :
      (again : Progress → Result CursorError Scan) (base : CursorFrame) (heads : Heads)
      (self : Option Item) (best : Option (ℕ × Item)) {scan : Scan}
      → self_cursor_incident base ≡ self
      → (best ≡ none → AllDone heads.owners)
      → append_item codec again (with_owners base heads.owners) heads (decide codec self best)
        ≡ ok scan
      → Advances scan
  unfolding self_cursor_incident
  append_item-Advances again base heads none none mine done h =
      subst Advances (ok-injective h) (inr (inr (ground (arith, mine), done refl)))
  append_item-Advances again base heads none (some (w, c)) mine done h = prepended c again _ h
  append_item-Advances again base heads (some self) none mine done h = prepended self again _ h
  append_item-Advances again base heads (some self) (some (w, c)) mine done h =
      elim (Bool-cases (before codec self c)) [
        | inl e ↦ prepended self again _ (rw e at h)
        | inr e ↦ prepended c again _ (rw e at h)
      ]

closed-done :
    (pages : Pages) (owner : OwnerPosition) → owner.done ≡ true → (closed pages owner).done ≡ true
closed-done pages owner d =
    elim (Bool-cases
      (owner.offset == length (pages owner.name).items && blank (pages owner.name).next_cursor)) [
        | inl e ↦
            subst (λ (b : Bool). (if b then record owner { done = true } else owner).done ≡ true)
              (sym e) refl
        | inr e ↦
            subst (λ (b : Bool). (if b then record owner { done = true } else owner).done ≡ true)
              (sym e) d
      ]

none-open :
    (pages : Pages) (owners : List OwnerPosition)
    → AllDone owners
    → any (λ o. not o.done) (map (closed pages) owners) ≡ false
none-open pages [] done = refl
none-open pages (owner ∷ rest) done =
    ground (arith, closed-done pages owner done.0, none-open pages rest done.1)

has_more-Ended :
    (scan : Scan) → Ended scan → has_more (closed_frame scan) (closed_owners scan) ≡ false
unfolding has_more
has_more-Ended scan (mine, done) =
    ground (arith, mine, none-open scan.progress.pages scan.progress.frame.owners done)

same_self :
    (frame : CursorFrame) (owners : List OwnerPosition)
    → self_cursor_incident frame ≡ self_cursor_incident (with_owners frame owners)
unfolding self_cursor_incident
same_self frame owners = refl

rounds-Advances :
    (codec : Codec) (world : Owners) (n : ℕ) (p : Progress) {scan : Scan}
    → 0 < n
    → rounds codec world n p ≡ ok scan
    → Advances scan
unfolding rounds
rounds-Advances codec world zero p some_rounds h = absurd (ground arith)
rounds-Advances codec world (suc n) p some_rounds h =
    bind-ok (refill codec world p.frame p.frame.owners p.pages p.calls) h (λ heads q k.
      elim (Bool-cases heads.unknown) [
        | inl u ↦ subst Advances (ok-injective (if-true heads.unknown _ _ u k)) (inl refl)
        | inr u ↦
            bind-ok (choose codec heads.pages 0 none heads.owners) (if-false heads.unknown _ _ u k)
              (λ best r m.
                append_item-Advances codec (rounds codec world n) p.frame heads
                  (self_cursor_incident (with_owners p.frame heads.owners)) best
                  (same_self p.frame heads.owners)
                  (λ e. (choose-none codec heads.pages 0 none heads.owners (r ∙ ap ok e)).1) m)
      ])

-- A page with a limit of at least one that announces more shows an incident or says that its scan is pending.
pub compose-advances :
    (sink : Sink) (codec : Codec) (world : Owners) (node : CursorNode) (pages : Pages) (calls : ℕ)
    {result : Composed}
    → 0 < node.frame.page_limit
    → compose sink codec world node pages calls ≡ ok result
    → result.truncated ≡ true
    → (result.scan_pending ≡ true) ⊎ (0 < length result.items)
unfolding compose
compose-advances sink codec world node pages calls limit h more =
    bind-ok
      (rounds codec world node.frame.page_limit
        (record { frame = node.frame; pages = pages; calls = calls }))
      h
      (λ scan p k.
        let kept = conclude-Keeps sink node scan k in
        elim (rounds-Advances codec world node.frame.page_limit
          (record { frame = node.frame; pages = pages; calls = calls }) limit p) [
            | inl e ↦ inl (kept.pending ∙ e)
            | inr (inl e) ↦ inr (omega (arith, e, ap length kept.items))
            | inr (inr e) ↦ inl (cc (has_more-Ended scan e, kept.truncated, more))
          ])
