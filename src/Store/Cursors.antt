-- ===== src/Store/Cursors.antt =====
-- internal/adapter/postgres/operational_cursor.go: the transactions on the incident cursors.
-- `locked` is the answer of `pg_try_advisory_xact_lock`; fresh uuids are arguments.
pub mod Commit
pub mod Committed
pub mod Loaded
pub mod Repeated
use ouf_mcp_server.Prelude.{
  ℕ, suc, ◌*◌, ◌+◌, String, Bool, true, false, not, ◌&&◌, ◌||◌, Option, none, some, is_some, List,
  [], ◌∷◌, ltb, leb, ◌==◌, if◌then◌else◌, all, blank, ◌is◌, ◌differs◌, Result, err, ok, ◌>>=◌,
}
use Prim.Native.String.{len}
use ouf_mcp_server.Orchestration.Domain.{Time, Uuid, minute}
use ouf_mcp_server.Operational.Incidents.{agree}
use ouf_mcp_server.Operational.Query.{CursorError}
use ouf_mcp_server.Operational.Query.CursorError.{
  cursor_not_found, cursor_expired, cursor_conflict, cursor_capacity, cursor_database,
}
use ouf_mcp_server.Operational.Frames.{OwnerPosition, CursorFrame, CursorBinding, CursorNode}
use ouf_mcp_server.Operational.Validity.{validate_cursor_frame}
use ouf_mcp_server.Operational.Serve.{unless}
use ouf_mcp_server.Store.Table.{Table, find, modify, put}
use ouf_mcp_server.Store.CursorTables.{
  CursorSession, CursorRow, CursorDb, Metadata, valid_cursor_binding, same_binding,
  cursor_node_capacity, session_capacity, delete_expired, insert, session_of, find_node, or_empty,
}

-- One owner against its position before.
abbrev follows_position : OwnerPosition → OwnerPosition → Bool
follows_position previous current =
    current.snapshot_ref is previous.snapshot_ref
    && (not previous.done || current.done)
    && (blank previous.publication_bookmark
        || previous.publication_bookmark is current.publication_bookmark
          && previous.publication_parent is current.publication_parent)
    && leb previous.page_index current.page_index
    && leb current.page_index (previous.page_index + 1)
    && (not (current.page_index == previous.page_index)
        || current.cursor is previous.cursor
          && current.items_digest is previous.items_digest
          && current.owner_digest is previous.owner_digest
          && leb previous.offset current.offset)

-- The inner loop, whose last owner of the name decides.
unfoldable pub owner_follows : OwnerPosition → Bool → List OwnerPosition → Bool
owner_follows previous found [] = found
owner_follows previous found (current ∷ rest) =
    owner_follows previous
      (if previous.name is current.name then follows_position previous current else found) rest

abbrev same_text : Option String → Option String → Bool
same_text (some a) (some b) = a is b
same_text (some a) none = false
same_text none b = false

abbrev pub node_of : Uuid → Uuid → CursorFrame → Time → CursorNode
node_of token session frame expires_at = record {
  token = token;
  session = session;
  frame = frame;
  expires_at = expires_at;
  next_token = none;
  page_digest = "";
}

module _ (meta : Metadata) where
  unfoldable pub same_cursor_scope : CursorFrame → CursorFrame → Bool
  unfolding owner_follows
  same_cursor_scope old next =
      agree old.publication_coverage next.publication_coverage
      && meta.canonical_publication old is meta.canonical_publication next
      && same_text (meta.canonical_filters old.filters) (meta.canonical_filters next.filters)
      && old.profile is next.profile
      && old.page_limit == next.page_limit
      && old.self_status is next.self_status
      && agree old.self_action_required next.self_action_required
      && (not old.partial || next.partial)
      && (not old.self_consumed || next.self_consumed)
      && all (λ previous. owner_follows previous false next.owners) old.owners

  abbrev pub new_row : Uuid → ℕ → CursorFrame → CursorRow
  new_row session number frame = record {
    session = session;
    page_number = number;
    metadata = meta.stored frame;
    page_digest = none;
    next_token = none;
  }

  -- The columns of a new node: the insert fails where its metadata is too large.
  abbrev pub insert_node :
      Uuid → Uuid → ℕ → CursorFrame → Table CursorRow → Result CursorError (Table CursorRow)
  insert_node token session number frame nodes =
      if ltb (16 * 1024) (meta.metadata_size frame)
      then err cursor_database
      else insert token (new_row session number frame) nodes

  -- After the guards and the deletion of an expired session.
  abbrev pub admit_cursor :
      Time
      → Uuid
      → Uuid
      → CursorBinding
      → CursorFrame
      → CursorDb
      → Result CursorError (CursorDb × CursorNode)
  admit_cursor now token session binding frame db =
      if not (session_capacity db binding)
      then err cursor_capacity
      else if not (cursor_node_capacity db binding)
      then err cursor_capacity
      else insert session (session_of now binding) db.sessions >>= λ sessions.
          insert_node token session 0 frame db.nodes >>= λ nodes. ok (
            record { sessions = sessions; nodes = nodes },
            node_of token session frame (session_of now binding).expires_at,
          )

  unfoldable pub create_incident_cursor :
      Bool
      → Time
      → Uuid
      → Uuid
      → CursorBinding
      → CursorFrame
      → CursorDb
      → Result CursorError (CursorDb × CursorNode)
  unfolding valid_cursor_binding validate_cursor_frame delete_expired session_capacity
      cursor_node_capacity insert
  create_incident_cursor locked now token session binding frame db =
      if not (valid_cursor_binding binding) || not (frame.page_number == 0)
      then err cursor_conflict
      else unless (validate_cursor_frame meta.codec frame) (
          if not locked
          then err cursor_capacity
          else admit_cursor now token session binding frame (delete_expired now db))

  abbrev pub load_row :
      Time → Uuid → Option (CursorRow × CursorSession) → Result CursorError CursorNode
  load_row now token none = err cursor_not_found
  load_row now token (some (row, session)) =
      if not (ltb now session.expires_at)
      then err cursor_expired
      else if ltb (16 * 1024) (meta.metadata_size row.metadata)
      then err cursor_conflict
      else unless (validate_cursor_frame meta.codec row.metadata) (
          ok (record {
            token = token;
            session = row.session;
            frame = row.metadata;
            expires_at = session.expires_at;
            next_token = row.next_token;
            page_digest = or_empty row.page_digest;
          }))

  unfoldable pub load_incident_cursor :
      CursorDb → Time → Uuid → CursorBinding → Result CursorError CursorNode
  unfolding valid_cursor_binding validate_cursor_frame find_node
  load_incident_cursor db now token binding =
      if not (valid_cursor_binding binding) || token == 0
      then err cursor_not_found
      else load_row now token (find_node db token binding)
