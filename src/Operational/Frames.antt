-- ===== src/Operational/Frames.antt =====
-- The cursors of internal/operational/cursor_state.go and the publication vectors that they carry.
-- A number that Go holds in an int and refuses below 0 (`ValidateCursorFrame`) is a ℕ; the decoding
-- of a negative one, a parameter, gives no frame. JSON is decoded and encoded by parameters.
use Prim.Native.String.{len}
use ouf_mcp_server.Prelude.{
  ℕ, String, Bool, false, not, ◌&&◌, ◌||◌, Option, none, some, List, [], ◌∷◌, ltb, leb, ◌==◌,
  if◌then◌else◌, all, blank, ◌is◌, ◌differs◌, valid_digest, rune_count, Result, err, ok, ◌>>=◌,
}
use ouf_mcp_server.Orchestration.Domain.{Time, Uuid}
use ouf_mcp_server.Operational.Incidents.{Json, string, Item}
use ouf_mcp_server.Operational.Query.{CursorError, is_lifecycle}
use ouf_mcp_server.Operational.Query.CursorError.{cursor_conflict, cursor_capacity}

abbrev pub cursor_profile : String
cursor_profile = "ouf.operational-owner-vector.v1"

abbrev pub publication_vector_profile : String
publication_vector_profile = "ouf.operational-publication-vector.v1"

pub record PublicationPosition : Type 0 where
  pub name : String
  pub bookmark : String
  pub parent_bookmark : String
  pub snapshot_ref : String
  pub items_digest : String

pub record PublicationVector : Type 0 where
  pub profile : String
  pub filters : String
  pub owners : List PublicationPosition

pub record OwnerPosition : Type 0 where
  pub name : String
  pub cursor : String
  pub offset : ℕ
  pub page_index : ℕ
  pub items_digest : String
  pub owner_digest : String
  pub snapshot_ref : String
  pub done : Bool
  pub publication_bookmark : String
  pub publication_parent : String

pub record CursorFrame : Type 0 where
  pub profile : String
  pub filters : String
  pub owners : List OwnerPosition
  pub page_limit : ℕ
  pub page_number : ℕ
  pub self_status : String
  pub self_action_required : Bool
  pub self_consumed : Bool
  pub partial : Bool
  pub publication_coverage : Bool
  pub publication_parent : Option Uuid
  pub publication_base : Option PublicationVector

pub record CursorBinding : Type 0 where
  pub principal_id : String
  pub tenant_id : String
  pub fingerprint : String
  pub policy_ref : String
  pub manifest_checksum : String

pub record CursorNode : Type 0 where
  pub token : Uuid
  pub session : Uuid
  pub frame : CursorFrame
  pub expires_at : Time
  pub next_token : Option Uuid
  pub page_digest : String

-- The encodings, which packages outside the repository carry out. `members` decodes a JSON object of
-- valid UTF-8 and keeps repeated keys, `unique` is the success of a decoder that refuses them.
pub record Codec : Type 0 where
  pub members : String → Option (List (String × Json))
  pub unique : String → Bool
  pub encode_texts : List (String × String) → String
  pub parse_uuid : String → Option Uuid
  pub print_uuid : Uuid → String
  pub parse_time : String → Time
  pub is_time : String → Bool
  pub trim_space : String → String
  pub digest_items : List Item → String
  pub frame_size : CursorFrame → ℕ
  pub vector_text : PublicationVector → String

module _ (codec : Codec) where
  -- `parsed, err := uuid.Parse(token); err != nil || parsed == uuid.Nil`, negated.
  abbrev pub is_token : String → Bool
  is_token value = elim (codec.parse_uuid value) [ none ↦ false | some u ↦ not (u == 0) ]

  unfoldable pub canonical_publication_token : String → Bool
  canonical_publication_token value = elim (codec.parse_uuid value) [
    | none ↦ false
    | some u ↦ not (u == 0) && codec.print_uuid u is value
  ]

  unfoldable filter_text : String → String → Bool
  unfolding rune_count
  filter_text key text =
      if key is "sourceId"
      then not (blank (codec.trim_space text)) && leb (rune_count text) 200
      else key is "state" && is_lifecycle text

  -- The loop over the fields, which gives their texts.
  unfoldable normalized_fields : List (String × Json) → Option (List (String × String))
  unfolding filter_text
  normalized_fields [] = some []
  normalized_fields ((key, string text) ∷ rest) = elim (normalized_fields rest) [
    | none ↦ none
    | some fields ↦ if filter_text key text then some ((key, text) ∷ fields) else none
  ]
  normalized_fields ((key, value) ∷ rest) = none

  abbrev normalized_members : Option (List (String × Json)) → Result CursorError String
  normalized_members none = err cursor_conflict
  normalized_members (some fields) = elim (normalized_fields fields) [
    | none ↦ err cursor_conflict
    | some texts ↦ ok (codec.encode_texts texts)
  ]

  unfoldable pub canonical_publication_filters : String → Result CursorError String
  unfolding normalized_fields filter_text
  canonical_publication_filters raw =
      if ltb 4096 (len raw)
      then err cursor_capacity
      else if not (codec.unique raw)
      then err cursor_conflict
      else normalized_members (codec.members raw)

  abbrev valid_publication_position : PublicationPosition → Bool
  valid_publication_position position =
      canonical_publication_token position.bookmark
      && canonical_publication_token position.snapshot_ref
      && (blank position.parent_bookmark || canonical_publication_token position.parent_bookmark)
      && valid_digest position.items_digest

  abbrev pair_of_owners : List PublicationPosition → Bool
  pair_of_owners (a ∷ b ∷ []) = a.name is "GATEWAY" && b.name is "INGESTION"
  pair_of_owners _ = false

  unfoldable pub canonical_publication_vector : PublicationVector → Result CursorError String
  unfolding canonical_publication_filters canonical_publication_token valid_digest
  canonical_publication_vector vector =
      if vector.profile differs publication_vector_profile || not (pair_of_owners vector.owners)
      then err cursor_conflict
      else canonical_publication_filters vector.filters >>= λ canonical.
          if not (all valid_publication_position vector.owners)
          then err cursor_conflict
          else let raw : String = codec.vector_text (record vector { filters = canonical }) in
            if ltb 4096 (len raw) then err cursor_capacity else ok raw
