-- ===== src/Operational/Serve.antt =====
-- `CursorComposer.Page` of internal/operational/cursor_composer.go, `PublicationComposer.Page` and its
-- `finalizer` of internal/operational/publication_composer.go, which differ in the coverage they serve.
-- Parameters: the store, the binding of the caller (`BindIncidentCursor`, whose errors it has), and the
-- public state of the server once decoded. `put` binds the caller (`BindPublicationBookmark`) and calls
-- the store. The nil tests of `configured` are one flag.
pub mod Served
use ouf_mcp_server.Prelude.{
  ℕ, suc, String, Bool, true, false, not, ◌&&◌, ◌||◌, Option, none, some, List, [], ◌∷◌, ◌++◌, ltb,
  if◌then◌else◌, blank, ◌is◌, ◌differs◌, Result, err, ok, ◌>>=◌,
}
use ouf_mcp_server.Orchestration.Domain.{Time, Uuid}
use ouf_mcp_server.Operational.Incidents.{valid_status, agree}
use ouf_mcp_server.Operational.Query.{CursorError}
use ouf_mcp_server.Operational.Query.CursorError.{
  cursor_expired, cursor_conflict, cursor_owner_unavailable,
}
use ouf_mcp_server.Operational.Frames.{
  PublicationPosition, PublicationVector, OwnerPosition, CursorFrame, CursorBinding, CursorNode,
  Codec, publication_vector_profile,
}
use ouf_mcp_server.Operational.Validity.{validate_cursor_frame}
use ouf_mcp_server.Operational.Pages.{CursorOwnerPage}
use ouf_mcp_server.Operational.Reads.{Owners, read_page, same_owner_page, validate_publication_page}
use ouf_mcp_server.Operational.Refill.{Pages, put_page}
use ouf_mcp_server.Operational.Compose.{Composed, Sink, compose}

-- The decoded body of `selfStatus`, `none` where it failed or is no JSON.
pub record SelfState : Type 0 where
  pub status : String
  pub partial : Bool
  pub action : Bool

pub record CursorStore : Type 0 where
  pub load : Uuid → CursorBinding → Result CursorError CursorNode
  pub commit : Uuid → CursorBinding → String → Option CursorFrame → Result CursorError (Option Uuid)
  pub put : PublicationVector → Option Uuid → Result CursorError String

pub record Request : Type 0 where
  pub configured : Bool
  pub binding : Result CursorError CursorBinding
  pub self_state : Option SelfState
  pub size_of : Composed → ℕ
  pub digest_of : Composed → String

-- Go's zero page, the value of the map where it has none.
abbrev pub empty_page : CursorOwnerPage
empty_page = record {
  items = [];
  cursor = "";
  next_cursor = "";
  snapshot_ref = "";
  items_digest = "";
  bookmark_profile = "";
  publication_bookmark = "";
  parent_bookmark = "";
  no_publication_progress = none;
}

abbrev known_state : SelfState → Result CursorError (String × Bool)
known_state self =
    if not (valid_status self.status) || self.partial
    then err cursor_owner_unavailable
    else ok (self.status, self.action)

abbrev pub current_self : Option SelfState → Result CursorError (String × Bool)
current_self none = err cursor_owner_unavailable
current_self (some self) = known_state self

abbrev pub unless : {A : Type 0} → Option CursorError → Result CursorError A → Result CursorError A
unless (some e) rest = err e
unless none rest = rest

-- The owners of the vector, by their name.
unfoldable pub positions_of :
    String → List OwnerPosition → Result CursorError (List PublicationPosition)
positions_of name [] = ok []
positions_of name (owner ∷ rest) =
    let found : Result CursorError (List PublicationPosition) = positions_of name rest in
    if owner.name differs name
    then found
    else if not owner.done || blank owner.publication_bookmark
    then err cursor_conflict
    else found >>= λ more. ok (
        record {
          name = name;
          bookmark = owner.publication_bookmark;
          parent_bookmark = owner.publication_parent;
          snapshot_ref = owner.snapshot_ref;
          items_digest = owner.owner_digest;
        }
        ∷ more)

module _ (codec : Codec) (store : CursorStore) where
  unfoldable pub finalizer : CursorFrame → Result CursorError String
  unfolding validate_cursor_frame positions_of
  finalizer frame = unless (validate_cursor_frame codec frame) (
      positions_of "GATEWAY" frame.owners >>= λ gateway.
      positions_of "INGESTION" frame.owners >>= λ ingestion.
      store.put
        (record {
          profile = publication_vector_profile;
          filters = frame.filters;
          owners = gateway ++ ingestion;
        })
        frame.publication_parent)

  module _ (world : Owners) where
    abbrev pub covered_page : CursorFrame → CursorOwnerPage → String → Option CursorError
    covered_page frame page name =
        if frame.publication_coverage then validate_publication_page codec page frame name else none

    -- The loop that reads the page of each owner again.
    unfoldable pub read_owners :
        CursorFrame → ℕ → List OwnerPosition → Pages → Result CursorError Pages
    unfolding read_page same_owner_page validate_publication_page
    read_owners frame calls [] pages = ok pages
    read_owners frame calls (owner ∷ rest) pages =
        read_page codec world calls frame.filters owner.name owner.cursor frame.publication_coverage
        >>= λ page. unless (covered_page frame page owner.name) (
            if not (same_owner_page codec owner page)
            then err cursor_conflict
            else read_owners frame (suc calls) rest (put_page pages owner.name page))

    abbrev pub sink_of : Bool → Request → CursorBinding → Sink
    sink_of coverage request binding = record {
      finalize = if coverage then some finalizer else none;
      size_of = request.size_of;
      digest_of = request.digest_of;
      commit = λ token digest next. store.commit token binding digest next;
    }

    abbrev pub changed_self : CursorFrame → String × Bool → Bool
    changed_self frame state =
        state.0 differs frame.self_status || not (agree state.1 frame.self_action_required)

    abbrev pub serve : Bool → Request → CursorBinding → CursorNode → Result CursorError Composed
    serve coverage request binding node = unless (validate_cursor_frame codec node.frame) (
        if not (agree node.frame.publication_coverage coverage)
        then err cursor_conflict
        else if ltb node.expires_at world.now
        then err cursor_expired
        else read_owners node.frame 0 node.frame.owners (λ n. empty_page) >>= λ pages.
            current_self request.self_state >>= λ state.
            if changed_self node.frame state
            then err cursor_conflict
            else compose (sink_of coverage request binding) codec world node pages 2)

    -- `coverage` is false in `CursorComposer.Page` and true in `PublicationComposer.Page`.
    unfoldable pub page : Bool → Request → Uuid → Result CursorError Composed
    unfolding validate_cursor_frame read_owners compose finalizer
    page coverage request token =
        if not request.configured
        then err cursor_owner_unavailable
        else request.binding >>= λ binding.
            store.load token binding >>= λ node. serve coverage request binding node
