-- ===== src/Store/Cursors/Loaded.antt =====
-- `CreateIncidentCursor` and `LoadIncidentCursor` of internal/adapter/postgres/operational_cursor.go.
use ouf_mcp_server.Prelude.{
  ℕ, ◌<◌, ◌+◌, ◌*◌, ◌≤◌, Bool, true, false, not, ◌||◌, none, some, ◌==◌, ◌≡◌, ◌≢◌, refl, subst,
  is_refl, ok, ok-injective, bind-ok, else-ok, arith, lt→ltb, le→ltb, ||-false, not-false,
}
use ouf_mcp_server.Orchestration.Domain.{Time, Uuid, minute}
use ouf_mcp_server.Operational.Frames.{CursorFrame, CursorBinding, CursorNode}
use ouf_mcp_server.Operational.Validity.{validate_cursor_frame}
use ouf_mcp_server.Operational.Serve.Served.{unless-ok}
use ouf_mcp_server.Store.Table.{Table, put, find-put_self}
use ouf_mcp_server.Store.CursorTables.{
  CursorSession, CursorRow, CursorDb, Metadata, valid_cursor_binding, same_binding,
  session_capacity, cursor_node_capacity, delete_expired, insert, session_of, find_node, or_empty,
}
use ouf_mcp_server.Store.Cursors.{
  new_row, insert_node, node_of, admit_cursor, create_incident_cursor, load_row,
  load_incident_cursor,
}
use ouf_mcp_server.Store.Cursors.Committed.{insert-ok, insert_node-insert}

nonzero : (n : ℕ) → n ≢ 0 → (n == 0) ≡ false
nonzero n h = ground (arith, h)

same_binding_refl : (b : CursorBinding) → same_binding b b ≡ true
same_binding_refl b = ground (
  arith,
  is_refl b.principal_id,
  is_refl b.tenant_id,
  is_refl b.fingerprint,
  is_refl b.policy_ref,
  is_refl b.manifest_checksum,
)

module _ (meta : Metadata) where
  find_node-put :
      (token id : Uuid) (number : ℕ) (frame : CursorFrame) (now : Time) (binding : CursorBinding)
      (nodes : Table CursorRow) (sessions : Table CursorSession)
      → find_node
          (record {
            sessions = put id (session_of now binding) sessions;
            nodes = put token (new_row meta id number frame) nodes;
          })
          token
          binding
        ≡ some (new_row meta id number frame, session_of now binding)
  unfolding find_node
  find_node-put token id number frame now binding nodes sessions =
      rw
        (
          find-put_self token (new_row meta id number frame) nodes,
          find-put_self id (session_of now binding) sessions,
          same_binding_refl binding,
        )
        refl

  load_row-stored :
      (now : Time) (token : Uuid) (row : CursorRow) (session : CursorSession)
      → now < session.expires_at
      → meta.metadata_size row.metadata ≤ 16 * 1024
      → validate_cursor_frame meta.codec row.metadata ≡ none
      → load_row meta now token (some (row, session))
        ≡ ok (record {
          token = token;
          session = row.session;
          frame = row.metadata;
          expires_at = session.expires_at;
          next_token = row.next_token;
          page_digest = or_empty row.page_digest;
        })
  load_row-stored now token row session live small valid =
      rw
        (
          lt→ltb now session.expires_at live,
          le→ltb (16 * 1024) (meta.metadata_size row.metadata) small,
          valid,
        )
        refl

  -- What the database gives back of a node that was created.
  abbrev pub reloaded : CursorNode → CursorNode
  reloaded node = record node { frame = meta.stored node.frame }

  load-put :
      (now later : Time) (token id : Uuid) (frame : CursorFrame) (binding : CursorBinding)
      (nodes : Table CursorRow) (sessions : Table CursorSession)
      → valid_cursor_binding binding ≡ true
      → (token == 0) ≡ false
      → later < now + 30 * minute
      → meta.metadata_size (meta.stored frame) ≤ 16 * 1024
      → validate_cursor_frame meta.codec (meta.stored frame) ≡ none
      → load_incident_cursor meta
          (record {
            sessions = put id (session_of now binding) sessions;
            nodes = put token (new_row meta id 0 frame) nodes;
          })
          later
          token
          binding
        ≡ ok (reloaded (node_of token id frame (now + 30 * minute)))
  unfolding load_incident_cursor
  load-put now later token id frame binding nodes sessions caller named live small valid =
      rw (caller, named, find_node-put token id 0 frame now binding nodes sessions)
        (load_row-stored later token (new_row meta id 0 frame) (session_of now binding) live small
          valid)

  admit_cursor-load :
      (now later : Time) (token id : Uuid) (binding : CursorBinding) (frame : CursorFrame)
      (db : CursorDb) {after : CursorDb} {node : CursorNode}
      → valid_cursor_binding binding ≡ true
      → (token == 0) ≡ false
      → later < now + 30 * minute
      → meta.metadata_size (meta.stored frame) ≤ 16 * 1024
      → validate_cursor_frame meta.codec (meta.stored frame) ≡ none
      → admit_cursor meta now token id binding frame db ≡ ok (after, node)
      → load_incident_cursor meta after later node.token binding ≡ ok (reloaded node)
  admit_cursor-load now later token id binding frame db caller named live small valid h =
      let room = else-ok (not (session_capacity db binding)) _ _ h in
      let nodes-room = else-ok (not (cursor_node_capacity db binding)) _ _ room.1 in
      bind-ok (insert id (session_of now binding) db.sessions) nodes-room.1 (λ sessions p k.
        bind-ok (insert_node meta token id 0 frame db.nodes) k (λ nodes q m.
          subst
            (λ (r : CursorDb × CursorNode).
              load_incident_cursor meta r.0 later r.1.token binding ≡ ok (reloaded r.1))
            (ok-injective m)
            (subst
              (λ (ns : Table CursorRow).
                load_incident_cursor meta (record { sessions = sessions; nodes = ns }) later token
                  binding
                ≡ ok (reloaded (node_of token id frame (now + 30 * minute))))
              (insert-ok token (new_row meta id 0 frame) db.nodes
                (insert_node-insert meta token id 0 frame db.nodes q)).1
              (subst
                (λ (ss : Table CursorSession).
                  load_incident_cursor meta
                    (record { sessions = ss; nodes = put token (new_row meta id 0 frame) db.nodes })
                    later token binding
                  ≡ ok (reloaded (node_of token id frame (now + 30 * minute))))
                (insert-ok id (session_of now binding) db.sessions p).1
                (load-put now later token id frame binding db.nodes db.sessions caller named live
                  small valid)))))

-- A cursor that was created is loaded by its caller before it expires: the same node, with the frame that
-- the database stored, where that frame is still valid and of at most 16 KiB.
pub create-load :
    (meta : Metadata) (locked : Bool) (now later : Time) (token id : Uuid) (binding : CursorBinding)
    (frame : CursorFrame) (db : CursorDb) {after : CursorDb} {node : CursorNode}
    → token ≢ 0
    → later < now + 30 * minute
    → meta.metadata_size (meta.stored frame) ≤ 16 * 1024
    → validate_cursor_frame meta.codec (meta.stored frame) ≡ none
    → create_incident_cursor meta locked now token id binding frame db ≡ ok (after, node)
    → load_incident_cursor meta after later node.token binding ≡ ok (reloaded meta node)
unfolding create_incident_cursor
create-load meta locked now later token id binding frame db named live small valid h =
    let shape =
      else-ok (not (valid_cursor_binding binding) || not (frame.page_number == 0)) _ _ h in
    let checked = unless-ok (validate_cursor_frame meta.codec frame) _ shape.1 in
    admit_cursor-load meta now later token id binding frame (delete_expired now db)
      (not-false _ (||-false _ _ shape.0).0) (nonzero token named) live small valid
      (else-ok (not locked) _ _ checked.1).1
