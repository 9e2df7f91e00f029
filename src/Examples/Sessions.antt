-- ===== src/Examples/Sessions.antt =====
-- A cursor that is created, loaded and committed in a database.
use ouf_mcp_server.Prelude.{
  true, ltb, Option, none, some, [], ◌∷◌, ◌≡◌, refl, ap, map, if-true, if-false, Bool-cases, inl,
  inr, ◌==◌, Result, err, ok, arith, some-injective,
}
use ouf_mcp_server.Orchestration.Domain.{Uuid}
use ouf_mcp_server.Operational.Query.{CursorError}
use ouf_mcp_server.Operational.Frames.{CursorFrame, CursorNode}
use ouf_mcp_server.Operational.Validity.{validate_cursor_frame}
use ouf_mcp_server.Store.Table.{find}
use ouf_mcp_server.Store.CursorTables.{CursorSession, CursorRow, CursorDb, Metadata, find_node}
use ouf_mcp_server.Store.Cursors.{create_incident_cursor, load_incident_cursor}
use ouf_mcp_server.Store.Cursors.Commit.{commit_incident_cursor_page}
use ouf_mcp_server.Store.Cursors.Committed.{commit_incident_cursor_page-keeps}
use ouf_mcp_server.Store.Cursors.Loaded.{reloaded, create-load}
use ouf_mcp_server.Store.Cursors.Repeated.{HasDigests, KeepsText, commit_incident_cursor_page-again}
use ouf_mcp_server.Examples.Cursors.{digits, codec, frame, binding}

abbrev meta : Metadata
meta = record {
  codec = codec;
  stored = λ f. f;
  metadata_size = λ f. 500;
  canonical = λ f. "{}";
  canonical_filters = λ text. some text;
  canonical_publication = λ f. "null";
}

abbrev empty_db : CursorDb
empty_db = record { sessions = []; nodes = [] }

abbrev created : Result CursorError (CursorDb × CursorNode) → CursorDb
created (ok p) = p.0
created (err e) = empty_db

abbrev created_node : Result CursorError (CursorDb × CursorNode) → Uuid
created_node (ok p) = p.1.token
created_node (err e) = 0

abbrev committed : Result CursorError (CursorDb × Option Uuid) → CursorDb
committed (ok p) = p.0
committed (err e) = empty_db

abbrev creation : Result CursorError (CursorDb × CursorNode)
creation = create_incident_cursor meta true 100 7 8 binding frame empty_db

created_run : created_node creation ≡ 7
unfolding create_incident_cursor
created_run = refl

abbrev next_frame : CursorFrame
next_frame = record frame { page_number = 1; self_consumed = true }

abbrev first : Result CursorError (CursorDb × Option Uuid)
first =
    commit_incident_cursor_page meta (created creation) true 200 7 9 binding digits
      (some next_frame)

committed_nodes : map (λ p. p.0) (committed first).nodes ≡ 9 ∷ 7 ∷ []
unfolding create_incident_cursor commit_incident_cursor_page
committed_nodes = refl

abbrev made : Result CursorError (CursorDb × CursorNode) → CursorNode
made (ok p) = p.1
made (err e) = record {
  token = 0;
  session = 0;
  frame = frame;
  expires_at = 0;
  next_token = none;
  page_digest = "";
}

creation_run : creation ≡ ok (created creation, made creation)
unfolding create_incident_cursor
creation_run = refl

frame_valid : validate_cursor_frame codec frame ≡ none
unfolding validate_cursor_frame
frame_valid = refl

create-load_example :
    load_incident_cursor meta (created creation) 200 (made creation).token binding
    ≡ ok (reloaded meta (made creation))
create-load_example =
    create-load meta true 100 200 7 8 binding frame empty_db (λ h. cc h) (omega arith) (omega arith)
      frame_valid creation_run

abbrev answer : Result CursorError (CursorDb × Option Uuid) → Option Uuid
answer (ok p) = p.1
answer (err e) = none

first_run : first ≡ ok (committed first, answer first)
unfolding create_incident_cursor commit_incident_cursor_page
first_run = refl

created-HasDigests : HasDigests (created creation)
unfolding create_incident_cursor find
created-HasDigests k row h e = elim (Bool-cases (7 == k)) [
  | inl same ↦
      cc (ap (λ (r : CursorRow). r.page_digest) (some-injective (if-true (7 == k) _ _ same h)), e)
  | inr other ↦ cc (if-false (7 == k) _ _ other h)
]

abbrev created_row : CursorRow
created_row = record {
  session = 8;
  page_number = 0;
  metadata = frame;
  page_digest = none;
  next_token = none;
}

abbrev created_session : CursorSession
created_session = record { binding = binding; expires_at = (made creation).expires_at }

created-found : find_node (created creation) 7 binding ≡ some (created_row, created_session)
unfolding create_incident_cursor find_node
created-found = refl

created-live : ltb 250 created_session.expires_at ≡ true
unfolding create_incident_cursor
created-live = refl

keeps_text : KeepsText meta
keeps_text f = refl

commit_incident_cursor_page-again_example :
    commit_incident_cursor_page meta
      (committed first)
      true
      250
      7
      10
      binding
      digits
      (some next_frame)
    ≡ ok (committed first, answer first)
commit_incident_cursor_page-again_example =
    commit_incident_cursor_page-again meta (created creation) 200 250 7 9 10 binding digits
      (some next_frame) created_row created_session keeps_text created-HasDigests created-found
      created-live first_run

abbrev second : Result CursorError (CursorDb × Option Uuid)
second = commit_incident_cursor_page meta (committed first) true 300 9 11 binding digits none

second_run : second ≡ ok (committed second, answer second)
unfolding create_incident_cursor commit_incident_cursor_page
second_run = refl

abbrev first_row : CursorRow
first_row = record {
  session = 8;
  page_number = 0;
  metadata = frame;
  page_digest = some digits;
  next_token = some 9;
}

first_found : find 7 (committed first).nodes ≡ some first_row
unfolding create_incident_cursor commit_incident_cursor_page find
first_found = refl

commit_incident_cursor_page-keeps_example : find 7 (committed second).nodes ≡ some first_row
commit_incident_cursor_page-keeps_example =
    commit_incident_cursor_page-keeps meta (committed first) true 300 9 11 binding digits none 7
      second_run first_found (λ h. cc h)
