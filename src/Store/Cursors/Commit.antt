-- ===== src/Store/Cursors/Commit.antt =====
-- `CommitIncidentCursorPage` of internal/adapter/postgres/operational_cursor.go.
use Prim.Native.String.{len}
use ouf_mcp_server.Prelude.{
  suc, String, Bool, not, ◌||◌, Option, none, some, is_some, ltb, ◌==◌, if◌then◌else◌, blank,
  ◌differs◌, Result, err, ok, ◌>>=◌,
}
use ouf_mcp_server.Orchestration.Domain.{Time, Uuid}
use ouf_mcp_server.Operational.Incidents.{agree}
use ouf_mcp_server.Operational.Query.{CursorError}
use ouf_mcp_server.Operational.Query.CursorError.{
  cursor_not_found, cursor_conflict, cursor_capacity, cursor_database,
}
use ouf_mcp_server.Operational.Frames.{CursorFrame, CursorBinding}
use ouf_mcp_server.Operational.Validity.{validate_cursor_frame}
use ouf_mcp_server.Operational.Serve.{unless}
use ouf_mcp_server.Store.Table.{Table, find, modify}
use ouf_mcp_server.Store.CursorTables.{
  CursorSession, CursorRow, CursorDb, Metadata, valid_cursor_binding, cursor_node_capacity,
  find_node, or_empty, insert,
}
use ouf_mcp_server.Store.Cursors.{insert_node, same_cursor_scope}

abbrev pub closed_row : Option String → String → Option Uuid → CursorRow → CursorRow
closed_row none digest next_token row = record row {
  page_digest = some digest;
  next_token = next_token;
}
closed_row (some old) digest next_token row = row

-- `update ... where token = $1 and page_digest is null`.
abbrev pub close_page : Uuid → String → Option Uuid → CursorDb → CursorDb
close_page token digest next_token db = record db {
  nodes = modify token (λ row. closed_row row.page_digest digest next_token row) db.nodes;
}

module _ (meta : Metadata) where
  abbrev pub same_metadata : CursorFrame → Option CursorRow → Result CursorError (Unit {0})
  same_metadata next none = err cursor_database
  same_metadata next (some retained) =
      if meta.canonical retained.metadata differs meta.canonical next
      then err cursor_conflict
      else ok tt

  abbrev pub find_next : Option Uuid → Table CursorRow → Option CursorRow
  find_next none nodes = none
  find_next (some token) nodes = find token nodes

  abbrev pub retained : CursorDb → CursorRow → Option CursorFrame → Result CursorError (Unit {0})
  retained db row none = ok tt
  retained db row (some next) = same_metadata next (find_next row.next_token db.nodes)

  -- The page was committed before: the same result gives the same token.
  abbrev pub commit_again :
      CursorDb
      → CursorRow
      → String
      → Option CursorFrame
      → Result CursorError (CursorDb × Option Uuid)
  commit_again db row digest next =
      if or_empty row.page_digest differs digest
        || not (agree (is_some next) (is_some row.next_token))
      then err cursor_conflict
      else retained db row next >>= λ u. ok (db, row.next_token)

  abbrev pub commit_first :
      CursorDb
      → Uuid
      → Uuid
      → CursorBinding
      → CursorRow
      → String
      → Option CursorFrame
      → Result CursorError (CursorDb × Option Uuid)
  commit_first db token candidate binding row digest none =
      ok (close_page token digest none db, none)
  commit_first db token candidate binding row digest (some next) =
      if not (next.page_number == suc row.page_number)
        || not (same_cursor_scope meta row.metadata next)
      then err cursor_conflict
      else if not (cursor_node_capacity db binding)
      then err cursor_capacity
      else insert_node meta candidate row.session next.page_number next db.nodes >>= λ nodes.
          ok
            (close_page token digest (some candidate) (record db { nodes = nodes }), some candidate)

  abbrev pub commit_row :
      CursorDb
      → Time
      → Uuid
      → Uuid
      → CursorBinding
      → String
      → Option CursorFrame
      → Option (CursorRow × CursorSession)
      → Result CursorError (CursorDb × Option Uuid)
  commit_row db now token candidate binding digest next none = err cursor_not_found
  commit_row db now token candidate binding digest next (some (row, session)) =
      if not (ltb now session.expires_at)
      then err cursor_not_found
      else if not (blank (or_empty row.page_digest))
      then commit_again db row digest next
      else commit_first db token candidate binding row digest next

  abbrev pub valid_next : Option CursorFrame → Option CursorError
  valid_next none = none
  valid_next (some next) = validate_cursor_frame meta.codec next

  unfoldable pub commit_incident_cursor_page :
      CursorDb
      → Bool
      → Time
      → Uuid
      → Uuid
      → CursorBinding
      → String
      → Option CursorFrame
      → Result CursorError (CursorDb × Option Uuid)
  unfolding valid_cursor_binding validate_cursor_frame find_node same_cursor_scope
      cursor_node_capacity find modify insert
  commit_incident_cursor_page db locked now token candidate binding digest next =
      if not (len digest == 64) || not (valid_cursor_binding binding)
      then err cursor_conflict
      else unless (valid_next next) (
          if not locked
          then err cursor_capacity
          else commit_row db now token candidate binding digest next (find_node db token binding))
