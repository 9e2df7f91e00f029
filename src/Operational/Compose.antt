-- ===== src/Operational/Compose.antt =====
-- `compose` of internal/operational/cursor_composer.go.
-- The loop appends one item in each round that goes on, so it is a recursion on the items missing.
-- Parameters: the encoding of the result and its digest, the commit of the store, and the closure
-- `finalize`, which the publications pass and the cursors do not. uuids of the node are not shown.
pub mod Delivered
pub mod Chosen
pub mod Sorted
pub mod Bounds
pub mod Advance
use ouf_mcp_server.Prelude.{
  ℕ, zero, suc, ◌+◌, ◌-◌, ◌*◌, String, Bool, true, false, not, ◌&&◌, ◌||◌, Option, none, some, List,
  [], ◌∷◌, ltb, leb, if◌then◌else◌, length, any, map, blank, ◌is◌, ◌differs◌, Result, err, ok,
  ◌>>=◌, ◌==◌,
}
use ouf_mcp_server.Orchestration.Domain.{Time, Uuid}
use ouf_mcp_server.Operational.Incidents.{Item, incident_before}
use ouf_mcp_server.Operational.Query.{CursorError}
use ouf_mcp_server.Operational.Query.CursorError.{cursor_conflict, cursor_capacity}
use ouf_mcp_server.Operational.Frames.{OwnerPosition, CursorFrame, CursorNode, Codec}
use ouf_mcp_server.Operational.Pages.{get_elem?}
use ouf_mcp_server.Operational.Reads.{Owners}
use ouf_mcp_server.Operational.Refill.{Pages, Heads, self_cursor_incident, refill, before}

-- The state of the outer loop: `calls`, the frame with its owners, and the pages.
pub record Progress : Type 0 where
  pub frame : CursorFrame
  pub pages : Pages
  pub calls : ℕ

-- What the loop leaves: the items in order, and `scanPending`.
pub record Scan : Type 0 where
  pub items : List Item
  pub progress : Progress
  pub pending : Bool

-- The result and the part of it that only publications have.
pub record Composed : Type 0 where
  pub items : List Item
  pub truncated : Bool
  pub scan_pending : Bool
  pub owner_calls : ℕ
  pub cursor : Uuid
  pub expires_at : Time
  pub publication_parent : Option Uuid
  pub publication_bookmark : Option String
  pub next_cursor : Option Uuid

abbrev pub with_owners : CursorFrame → List OwnerPosition → CursorFrame
with_owners frame owners = record frame { owners = owners }

-- `frame.Owners[winner].Offset++`.
unfoldable pub advance : ℕ → List OwnerPosition → List OwnerPosition
advance n [] = []
advance zero (owner ∷ rest) = record owner { offset = suc owner.offset } ∷ rest
advance (suc n) (owner ∷ rest) = owner ∷ advance n rest

-- Which item a round appends.
pub data Choice : Type 0 where
  nothing : Choice
  own : Item → Choice
  owned : ℕ → Item → Choice

module _ (codec : Codec) where
  abbrev pub better : Option (ℕ × Item) → ℕ → Item → Option (ℕ × Item)
  better none index item = some (index, item)
  better (some (winner, candidate)) index item =
      if before codec item candidate then some (index, item) else some (winner, candidate)

  -- The second loop of a round: the owner whose next item comes first, the first such owner.
  unfoldable pub choose :
      Pages → ℕ → Option (ℕ × Item) → List OwnerPosition → Result CursorError (Option (ℕ × Item))
  unfolding get_elem? incident_before
  choose pages index best [] = ok best
  choose pages index best (owner ∷ rest) =
      if owner.done
      then choose pages (suc index) best rest
      else elim (get_elem? (pages owner.name).items owner.offset) [
        | none ↦ err cursor_conflict
        | some item ↦ choose pages (suc index) (better best index item) rest
      ]

  abbrev pub decide : Option Item → Option (ℕ × Item) → Choice
  decide none none = nothing
  decide none (some (winner, candidate)) = owned winner candidate
  decide (some self) none = own self
  decide (some self) (some (winner, candidate)) =
      if before codec self candidate then own self else owned winner candidate

  abbrev pub prepend : Item → Scan → Scan
  prepend item scan = record scan { items = item ∷ scan.items }

  abbrev pub stop : Progress → Bool → Result CursorError Scan
  stop progress pending = ok (record { items = []; progress = progress; pending = pending })

  -- The rest of a round, where `again` is the rounds that follow.
  abbrev pub append_item :
      (Progress → Result CursorError Scan) → CursorFrame → Heads → Choice → Result CursorError Scan
  append_item again frame heads nothing =
      stop (record { frame = frame; pages = heads.pages; calls = heads.calls }) false
  append_item again frame heads (own item) =
      again (record {
        frame = record frame { self_consumed = true };
        pages = heads.pages;
        calls = heads.calls;
      })
      >>= λ scan. ok (prepend item scan)
  append_item again frame heads (owned winner item) =
      again (record {
        frame = with_owners frame (advance winner heads.owners);
        pages = heads.pages;
        calls = heads.calls;
      })
      >>= λ scan. ok (prepend item scan)

  abbrev pub take_item :
      (Progress → Result CursorError Scan) → CursorFrame → Heads → Result CursorError Scan
  take_item again frame heads =
      if heads.unknown
      then stop (record { frame = frame; pages = heads.pages; calls = heads.calls }) true
      else choose heads.pages 0 none heads.owners >>= λ best.
          append_item again frame heads (decide (self_cursor_incident frame) best)

  -- The rounds of the loop; the number is `frame.PageLimit - len(items)`.
  unfoldable pub rounds : Owners → ℕ → Progress → Result CursorError Scan
  unfolding refill choose self_cursor_incident advance incident_before
  rounds world zero p = stop p false
  rounds world (suc n) p = refill codec world p.frame p.frame.owners p.pages p.calls >>= λ heads.
      take_item (rounds world n) (with_owners p.frame heads.owners) heads

-- The last loop: an owner whose last page is used up is done.
abbrev pub closed : Pages → OwnerPosition → OwnerPosition
closed pages owner =
    if owner.offset == length (pages owner.name).items && blank (pages owner.name).next_cursor
    then record owner { done = true }
    else owner

unfoldable pub has_more : CursorFrame → List OwnerPosition → Bool
has_more frame owners =
    not frame.self_consumed && frame.self_status differs "HEALTHY" || any (λ o. not o.done) owners

-- The store and the closures of a request.
pub record Sink : Type 0 where
  pub finalize : Option (CursorFrame → Result CursorError String)
  pub size_of : Composed → ℕ
  pub digest_of : Composed → String
  pub commit : Uuid → String → Option CursorFrame → Result CursorError (Option Uuid)

module _ (sink : Sink) where
  abbrev call_finalize :
      Option (CursorFrame → Result CursorError String)
      → CursorFrame
      → Result CursorError (Option String)
  call_finalize none frame = err cursor_conflict
  call_finalize (some finalize) frame = finalize frame >>= λ bookmark. ok (some bookmark)

  abbrev pub bookmark_for : CursorFrame → Bool → Result CursorError (Option String)
  bookmark_for frame open_ended =
      if frame.publication_coverage && not open_ended
      then call_finalize sink.finalize frame
      else ok none

  abbrev pub result_of : CursorNode → Scan → Bool → Option String → Composed
  result_of node scan more bookmark = record {
    items = scan.items;
    truncated = more;
    scan_pending = scan.pending;
    owner_calls = scan.progress.calls;
    cursor = node.token;
    expires_at = node.expires_at;
    publication_parent =
        if scan.progress.frame.publication_coverage
        then scan.progress.frame.publication_parent
        else none;
    publication_bookmark = bookmark;
    next_cursor = none;
  }

  abbrev pub next_frame : CursorFrame → Bool → Result CursorError (Option CursorFrame)
  next_frame frame more =
      if not more
      then ok none
      else if leb 200 frame.page_number
      then err cursor_capacity
      else ok (some (record frame { page_number = suc frame.page_number }))

  abbrev pub deliver : CursorNode → CursorFrame → Composed → Result CursorError Composed
  deliver node frame result =
      if ltb (512 * 1024 - 1024) (sink.size_of result)
      then err cursor_capacity
      else next_frame frame result.truncated >>= λ next.
          sink.commit node.token (sink.digest_of result) next >>= λ token.
          ok (record result { next_cursor = token })

  abbrev pub conclude : CursorNode → Scan → Result CursorError Composed
  conclude node scan =
      let owners : List OwnerPosition =
        map (closed scan.progress.pages) scan.progress.frame.owners in
      let frame : CursorFrame = with_owners scan.progress.frame owners in
      let more : Bool = has_more frame owners in
      bookmark_for frame (more || scan.pending) >>= λ bookmark.
      deliver node frame (result_of node scan more bookmark)

  unfoldable pub compose : Codec → Owners → CursorNode → Pages → ℕ → Result CursorError Composed
  unfolding rounds has_more
  compose codec world node pages calls =
      rounds codec world node.frame.page_limit
        (record { frame = node.frame; pages = pages; calls = calls })
      >>= λ scan. conclude node scan
