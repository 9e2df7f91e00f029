-- ===== src/Operational/Refill.antt =====
-- The first loop in a round of `compose` of internal/operational/cursor_composer.go, which looks for
-- the next item of each owner, and `selfCursorIncident`.
-- The map of the pages is a function, whose value at a missing key is Go's zero page.
pub mod Ready
use Prim.Native.String.{◌++◌}
use ouf_mcp_server.Prelude.{
  ℕ, zero, suc, ◌+◌, String, Bool, true, false, not, ◌&&◌, ◌||◌, Option, none, some, List, [], ◌∷◌,
  ltb, leb, if◌then◌else◌, length, any, map, blank, ◌is◌, ◌differs◌, Result, err, ok, ◌>>=◌, ◌==◌,
}
use ouf_mcp_server.Operational.Incidents.{
  string, flag, Item, incident_before, map_status_lifecycle, map_status_severity,
}
use ouf_mcp_server.Operational.Query.{CursorError}
use ouf_mcp_server.Operational.Query.CursorError.{cursor_conflict, cursor_capacity}
use ouf_mcp_server.Operational.Frames.{OwnerPosition, CursorFrame, Codec}
use ouf_mcp_server.Operational.Pages.{CursorOwnerPage, get_elem?, last_of}
use ouf_mcp_server.Operational.Reads.{Owners, position, validate_publication_page, read_page}

abbrev pub Pages : Type 0
Pages = String → CursorOwnerPage

abbrev pub put_page : Pages → String → CursorOwnerPage → Pages
put_page pages name page = λ n. if n is name then page else pages n

unfoldable pub self_cursor_incident : CursorFrame → Option Item
self_cursor_incident frame =
    if frame.self_consumed || frame.self_status is "HEALTHY"
    then none
    else some (
        ("incident_id", string "mcp-operational-state")
        ∷ ("module", string "MCP")
        ∷ ("event_type", string ("MCP_OPERATIONAL_" ++ frame.self_status))
        ∷ ("lifecycle_state", string (map_status_lifecycle frame.self_status))
        ∷ ("severity", string (map_status_severity frame.self_status))
        ∷ ("action_required", flag frame.self_action_required)
        ∷ (
          "impact_summary",
          string
              "MCP has governed recovery, debt, evidence or unresolved orchestration state requiring attention.",
        )
        ∷ ("visibility_class", string "TENANT_OPERATIONAL")
        ∷ [])

-- One owner after a look for its next item: `unknown` where the reads of the page are used up.
pub record Refilled : Type 0 where
  pub owner : OwnerPosition
  pub pages : Pages
  pub calls : ℕ
  pub unknown : Bool

-- The owners after the pass, with the flag `unknownHead`.
pub record Heads : Type 0 where
  pub owners : List OwnerPosition
  pub pages : Pages
  pub calls : ℕ
  pub unknown : Bool

abbrev pub finished : OwnerPosition → OwnerPosition
finished owner = record owner { done = true }

abbrev pub before : Codec → Item → Item → Bool
before codec = incident_before codec.parse_time

module _ (codec : Codec) (world : Owners) where
  -- `len(page.Items) > 0 && len(next.Items) > 0 && incidentBefore(next.Items[0], last item)`.
  abbrev pub out_of_order : Option Item → Option Item → Bool
  out_of_order (some last) (some head) = before codec head last
  out_of_order (some last) none = false
  out_of_order none head = false

  abbrev pub refused_publication : CursorFrame → CursorOwnerPage → String → Option CursorError
  refused_publication frame next name =
      if frame.publication_coverage then validate_publication_page codec next frame name else none

  -- `*position = next.position(…)`, done where the page is empty.
  abbrev pub next_position : OwnerPosition → CursorOwnerPage → OwnerPosition
  next_position owner next = record (position codec next owner.name (suc owner.page_index)) {
    done = length next.items == 0;
  }

  abbrev pub accept_page :
      OwnerPosition → Pages → ℕ → CursorOwnerPage → Option CursorError → Result CursorError Refilled
  accept_page owner pages calls next (some e) = err e
  accept_page owner pages calls next none =
      if next.snapshot_ref differs owner.snapshot_ref
        || next.cursor differs (pages owner.name).next_cursor
      then err cursor_conflict
      else if out_of_order (last_of (pages owner.name).items) (get_elem? next.items 0)
      then err cursor_conflict
      else ok (record {
        owner = next_position owner next;
        pages = put_page pages owner.name next;
        calls = calls;
        unknown = false;
      })

  abbrev pub keep : OwnerPosition → Pages → ℕ → Result CursorError Refilled
  keep owner pages calls =
      ok (record { owner = owner; pages = pages; calls = calls; unknown = false })

  abbrev pub fetch_page : CursorFrame → OwnerPosition → Pages → ℕ → Result CursorError Refilled
  fetch_page frame owner pages calls =
      read_page codec world calls frame.filters owner.name (pages owner.name).next_cursor
        frame.publication_coverage
      >>= λ next.
          accept_page owner pages (suc calls) next (refused_publication frame next owner.name)

  -- An owner whose page is used up.
  abbrev pub exhausted : CursorFrame → OwnerPosition → Pages → ℕ → Result CursorError Refilled
  exhausted frame owner pages calls =
      if blank (pages owner.name).next_cursor
      then keep (finished owner) pages calls
      else if leb 3 calls
      then ok (record { owner = owner; pages = pages; calls = calls; unknown = true })
      else if leb 200 owner.page_index
      then err cursor_capacity
      else fetch_page frame owner pages calls

  unfoldable pub refill_owner :
      CursorFrame → OwnerPosition → Pages → ℕ → Result CursorError Refilled
  unfolding position last_of get_elem? incident_before validate_publication_page read_page
  refill_owner frame owner pages calls =
      if owner.done
      then keep owner pages calls
      else if ltb owner.offset (length (pages owner.name).items)
      then keep owner pages calls
      else exhausted frame owner pages calls

  -- The first loop of a round: it stops at an owner whose next item stays unknown.
  unfoldable pub refill : CursorFrame → List OwnerPosition → Pages → ℕ → Result CursorError Heads
  unfolding refill_owner
  refill frame [] pages calls =
      ok (record { owners = []; pages = pages; calls = calls; unknown = false })
  refill frame (owner ∷ rest) pages calls = refill_owner frame owner pages calls >>= λ r.
      if r.unknown
      then ok (record { owners = owner ∷ rest; pages = pages; calls = calls; unknown = true })
      else refill frame rest r.pages r.calls >>= λ t. ok (record {
        owners = r.owner ∷ t.owners;
        pages = t.pages;
        calls = t.calls;
        unknown = t.unknown;
      })
