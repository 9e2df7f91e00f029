-- ===== src/Operational/Reads.antt =====
-- `position`, `sameOwnerPage` and `readPage` of internal/operational/cursor_composer.go, and
-- `validatePublicationPage` of internal/operational/publication_composer.go.
-- `callProducer` is the parameter `call`: the decoded reply to a read, or `none` where it failed. Its
-- first argument counts the reads of a request, for an owner may answer otherwise the next time.
pub mod Checked
use ouf_mcp_server.Prelude.{
  ℕ, String, Bool, true, false, not, ◌&&◌, ◌||◌, Option, none, some, List, [], ◌∷◌, leb, ◌==◌,
  if◌then◌else◌, length, blank, ◌is◌, ◌differs◌, Result, err, ok, ◌>>=◌,
}
use ouf_mcp_server.Orchestration.Domain.{Time}
use ouf_mcp_server.Operational.Incidents.{Json, string, flag, whole, other, find_field, agree}
use ouf_mcp_server.Operational.Query.{CursorError}
use ouf_mcp_server.Operational.Query.CursorError.{cursor_conflict, cursor_owner_unavailable}
use ouf_mcp_server.Operational.Frames.{
  OwnerPosition, CursorFrame, Codec, canonical_publication_token,
}
use ouf_mcp_server.Operational.Validity.{publication_owner_parent}
use ouf_mcp_server.Operational.Pages.{OwnerReply, CursorOwnerPage, decode_cursor_owner_page}

pub record ProducerSpec : Type 0 where
  pub name : String
  pub capability_id : String
  pub owner : String
  pub scope : String

abbrev pub incident_producers : List ProducerSpec
incident_producers =
    record {
      name = "INGESTION";
      capability_id = "ouf.ingestion.operations.incidents";
      owner = "ingestion";
      scope = "operations.incident.read";
    }
    ∷ record {
      name = "GATEWAY";
      capability_id = "ouf.gateway.operations.incidents";
      owner = "gateway";
      scope = "operations.incident.read";
    }
    ∷ []

-- What `readPage` asks: the query, and the source scope that it keeps beside it.
pub record PageQuery : Type 0 where
  pub cursor : String
  pub coverage : Bool
  pub scope_source : String

pub record Owners : Type 0 where
  pub call : ℕ → ProducerSpec → PageQuery → Option (OwnerReply × Bool)
  pub now : Time

module _ (codec : Codec) where
  unfoldable pub position : CursorOwnerPage → String → ℕ → OwnerPosition
  position page name index = record {
    name = name;
    cursor = page.cursor;
    offset = 0;
    page_index = index;
    items_digest = codec.digest_items page.items;
    owner_digest = page.items_digest;
    snapshot_ref = page.snapshot_ref;
    done = false;
    publication_bookmark = page.publication_bookmark;
    publication_parent = page.parent_bookmark;
  }

  unfoldable pub same_owner_page : OwnerPosition → CursorOwnerPage → Bool
  unfolding position
  same_owner_page at page =
      let observed : OwnerPosition = position page at.name at.page_index in
      at.cursor is observed.cursor
      && at.snapshot_ref is observed.snapshot_ref
      && at.items_digest is observed.items_digest
      && at.owner_digest is observed.owner_digest
      && leb at.offset (length page.items)
      && at.publication_bookmark is observed.publication_bookmark
      && at.publication_parent is observed.publication_parent

  -- `coverage.noPublicationProgress` says whether the owner published nothing new.
  abbrev says : Option Bool → Bool → Bool
  says none unchanged = false
  says (some stated) unchanged = agree stated unchanged

  abbrev is_none : Option Bool → Bool
  is_none none = true
  is_none (some b) = false

  unfoldable pub validate_publication_page :
      CursorOwnerPage → CursorFrame → String → Option CursorError
  unfolding canonical_publication_token publication_owner_parent
  validate_publication_page page frame name =
      let token = canonical_publication_token codec in
      let expected : String = publication_owner_parent frame name in
      if page.bookmark_profile differs "ouf.owner-publication-bookmark.v1"
        || not (token page.cursor)
        || not (token page.snapshot_ref)
        || not (blank page.next_cursor) && not (token page.next_cursor)
      then some cursor_conflict
      else if blank page.next_cursor
      then if not (token page.publication_bookmark)
          || page.parent_bookmark differs expected
          || not (
              says page.no_publication_progress
                (not (blank expected) && page.publication_bookmark is expected))
        then some cursor_conflict
        else none
      else if not (blank page.publication_bookmark)
          || not (blank page.parent_bookmark)
          || not (is_none page.no_publication_progress)
      then some cursor_conflict
      else none

  -- The filters repeat no key (`operational_query`), so the first one is the last one that Go keeps.
  -- A JSON null leaves the text empty, as no scope does; `other` is its encoding.
  abbrev scope_of : Option Json → Option String
  scope_of none = some ""
  scope_of (some (string source)) = some source
  scope_of (some (flag b)) = none
  scope_of (some (whole n)) = none
  scope_of (some (other e)) = if e is "null" then some "" else none

  abbrev pub scope_source_of : Option (List (String × Json)) → Option String
  scope_source_of none = none
  scope_source_of (some fields) = scope_of (find_field fields "sourceId")

  module _ (owners : Owners) where
    -- The loop over the producers, for the one with the name.
    unfoldable pub ask_producer :
        ℕ → PageQuery → String → List ProducerSpec → Result CursorError CursorOwnerPage
    ask_producer calls query name [] = err cursor_conflict
    ask_producer calls query name (producer ∷ rest) =
        if producer.name is name
        then decode_cursor_owner_page codec (owners.call calls producer query) name owners.now
        else ask_producer calls query name rest

    abbrev pub scoped_read :
        ℕ → Option String → String → String → Bool → Result CursorError CursorOwnerPage
    scoped_read calls none name token coverage = err cursor_conflict
    scoped_read calls (some source) name token coverage =
        ask_producer calls (record { cursor = token; coverage = coverage; scope_source = source })
          name incident_producers

    unfoldable pub read_page :
        ℕ → String → String → String → Bool → Result CursorError CursorOwnerPage
    unfolding ask_producer
    read_page calls filters name token coverage =
        scoped_read calls (scope_source_of (codec.members filters)) name token coverage
