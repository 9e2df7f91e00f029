-- ===== src/Operational/Validity.antt =====
-- `ValidateCursorFrame` of internal/operational/cursor_state.go and the checks of
-- internal/operational/publication_composer.go that it makes. `none` is Go's nil error.
use ouf_mcp_server.Prelude.{
  String, Bool, true, false, not, ◌&&◌, ◌||◌, ◌*◌, Option, none, some, is_some, List, [], ◌∷◌, ltb,
  ◌==◌, if◌then◌else◌, length, any, all, blank, ◌is◌, ◌differs◌, has, valid_digest, Result, err, ok,
}
use ouf_mcp_server.Orchestration.Domain.{Uuid}
use ouf_mcp_server.Operational.Incidents.{valid_status}
use ouf_mcp_server.Operational.Query.{CursorError, operational_query}
use ouf_mcp_server.Operational.Query.CursorError.{cursor_conflict, cursor_capacity}
use ouf_mcp_server.Operational.Frames.{
  PublicationPosition, PublicationVector, OwnerPosition, CursorFrame, Codec, cursor_profile,
  is_token, canonical_publication_token, canonical_publication_filters,
  canonical_publication_vector,
}

unfoldable pub bookmark_of : List PublicationPosition → String → String
bookmark_of [] name = ""
bookmark_of (owner ∷ rest) name =
    if owner.name is name then owner.bookmark else bookmark_of rest name

abbrev pub parent_in : Option PublicationVector → String → String
parent_in none name = ""
parent_in (some base) name = bookmark_of base.owners name

unfoldable pub publication_owner_parent : CursorFrame → String → String
unfolding bookmark_of
publication_owner_parent frame name = parent_in frame.publication_base name

abbrev carries_publication : OwnerPosition → Bool
carries_publication owner =
    not (blank owner.publication_bookmark) || not (blank owner.publication_parent)

module _ (codec : Codec) where
  abbrev valid_capture_owner : CursorFrame → OwnerPosition → Bool
  valid_capture_owner frame owner =
      if not (blank owner.publication_bookmark)
      then canonical_publication_token codec owner.publication_bookmark
        && owner.publication_parent is publication_owner_parent frame owner.name
      else not (owner.done || not (blank owner.publication_parent))

  abbrev check_owners : CursorFrame → Option CursorError
  check_owners frame =
      if all (valid_capture_owner frame) frame.owners then none else some cursor_conflict

  abbrev same_filters : String → Result CursorError String → Bool
  same_filters filters (err e) = false
  same_filters filters (ok base) = filters is base

  abbrev check_base :
      PublicationVector → String → CursorFrame → Result CursorError String → Option CursorError
  check_base base filters frame (err e) = some e
  check_base base filters frame (ok canonical) =
      if not (same_filters filters (canonical_publication_filters codec base.filters))
      then some cursor_conflict
      else check_owners frame

  abbrev check_parent :
      Option Uuid → Option PublicationVector → String → CursorFrame → Option CursorError
  check_parent none none filters frame = check_owners frame
  check_parent none (some base) filters frame = some cursor_conflict
  check_parent (some parent) none filters frame = some cursor_conflict
  check_parent (some parent) (some base) filters frame =
      if parent == 0
      then some cursor_conflict
      else check_base base filters frame (canonical_publication_vector codec base)

  abbrev check_covered : CursorFrame → Result CursorError String → Option CursorError
  check_covered frame (err e) = some e
  check_covered frame (ok filters) =
      check_parent frame.publication_parent frame.publication_base filters frame

  unfoldable pub validate_publication_capture : CursorFrame → Option CursorError
  unfolding canonical_publication_token publication_owner_parent canonical_publication_filters
      canonical_publication_vector
  validate_publication_capture frame =
      if not frame.publication_coverage
      then if is_some frame.publication_parent
          || is_some frame.publication_base
          || any carries_publication frame.owners
        then some cursor_conflict
        else none
      else check_covered frame (canonical_publication_filters codec frame.filters)

  abbrev pub valid_owner : List String → OwnerPosition → Bool
  valid_owner seen owner =
      (owner.name is "GATEWAY" || owner.name is "INGESTION")
      && not (has seen owner.name)
      && not (ltb 100 owner.offset)
      && not (ltb 200 owner.page_index)
      && valid_digest owner.items_digest
      && valid_digest owner.owner_digest
      && is_token codec owner.cursor
      && is_token codec owner.snapshot_ref

  unfoldable pub valid_owners : List String → List OwnerPosition → Bool
  unfolding has valid_digest
  valid_owners seen [] = true
  valid_owners seen (owner ∷ rest) = valid_owner seen owner && valid_owners (owner.name ∷ seen) rest

  abbrev pub check_positions : CursorFrame → Option CursorError → Option CursorError
  check_positions frame (some e) = some e
  check_positions frame none =
      if not (valid_owners [] frame.owners)
      then some cursor_conflict
      else if ltb (16 * 1024) (codec.frame_size frame)
      then some cursor_capacity
      else none

  unfoldable pub validate_cursor_frame : CursorFrame → Option CursorError
  unfolding valid_owners validate_publication_capture operational_query
  validate_cursor_frame frame =
      if frame.profile differs cursor_profile
        || ltb frame.page_limit 1
        || ltb 100 frame.page_limit
        || ltb 200 frame.page_number
        || not (valid_status frame.self_status)
        || not (length frame.owners == 2)
      then some cursor_conflict
      else if not (is_some (operational_query codec.is_time (codec.members frame.filters) true))
      then some cursor_conflict
      else check_positions frame (validate_publication_capture frame)
