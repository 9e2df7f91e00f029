-- ===== src/Store/CursorTables.antt =====
-- internal/adapter/postgres/operational_cursor.go: the sessions and nodes of the incident cursors.
-- Parameters: the encoding of a frame as jsonb, its size and what is read back of it (`stored`), its
-- canonical text (`sameMetadataJSON` compares those), and fresh uuids. A statement that fails rolls the
-- transaction back, and transactions run one after the other, as the advisory lock makes them.
use Prim.Native.String.{len}
use ouf_mcp_server.Prelude.{
  ℕ, ◌+◌, ◌*◌, String, Bool, true, false, not, ◌&&◌, ◌||◌, Option, none, some, [], ◌∷◌, ltb, leb,
  ◌==◌, if◌then◌else◌, blank, ◌is◌, valid_digest, Result, err, ok,
}
use ouf_mcp_server.Orchestration.Domain.{Time, Uuid, minute}
use ouf_mcp_server.Operational.Query.{CursorError}
use ouf_mcp_server.Operational.Query.CursorError.{cursor_database}
use ouf_mcp_server.Operational.Frames.{CursorFrame, CursorBinding, Codec}
use ouf_mcp_server.Store.Table.{Table, find, put}

-- `operational_cursor_session`
pub record CursorSession : Type 0 where
  pub binding : CursorBinding
  pub expires_at : Time

-- `operational_cursor_node`; `metadata` is what its column decodes to.
pub record CursorRow : Type 0 where
  pub session : Uuid
  pub page_number : ℕ
  pub metadata : CursorFrame
  pub page_digest : Option String
  pub next_token : Option Uuid

pub record CursorDb : Type 0 where
  pub sessions : Table CursorSession
  pub nodes : Table CursorRow

pub record Metadata : Type 0 where
  pub codec : Codec
  pub stored : CursorFrame → CursorFrame
  pub metadata_size : CursorFrame → ℕ
  pub canonical : CursorFrame → String
  pub canonical_filters : String → Option String
  pub canonical_publication : CursorFrame → String

-- The regular expression `^[0-9a-f]{64}$` is `valid_digest`.
unfoldable pub valid_cursor_binding : CursorBinding → Bool
unfolding valid_digest
valid_cursor_binding binding =
    not (blank binding.principal_id)
    && leb (len binding.principal_id) 200
    && not (blank binding.tenant_id)
    && leb (len binding.tenant_id) 200
    && valid_digest binding.fingerprint
    && not (blank binding.policy_ref)
    && leb (len binding.policy_ref) 512
    && valid_digest binding.manifest_checksum

abbrev pub same_binding : CursorBinding → CursorBinding → Bool
same_binding a b =
    a.principal_id is b.principal_id
    && a.tenant_id is b.tenant_id
    && a.fingerprint is b.fingerprint
    && a.policy_ref is b.policy_ref
    && a.manifest_checksum is b.manifest_checksum

abbrev of_tenant : CursorBinding → CursorSession → Bool
of_tenant binding session = session.binding.tenant_id is binding.tenant_id

abbrev of_principal : CursorBinding → CursorSession → Bool
of_principal binding session =
    of_tenant binding session && session.binding.principal_id is binding.principal_id

unfoldable pub count : {A : Type 0} → (A → Bool) → Table A → ℕ
count test [] = 0
count test ((k, v) ∷ rest) = (if test v then 1 else 0) + count test rest

abbrev row_of : (CursorSession → Bool) → Option CursorSession → Bool
row_of test none = false
row_of test (some session) = test session

-- The test on a node through the session it joins.
abbrev joins : CursorDb → (CursorSession → Bool) → CursorRow → Bool
joins db test row = row_of test (find row.session db.sessions)

abbrev any_session : CursorSession → Bool
any_session session = true

unfoldable pub cursor_node_capacity : CursorDb → CursorBinding → Bool
unfolding count find
cursor_node_capacity db binding = not (
    leb 32768 (count (joins db any_session) db.nodes)
    || leb 4096 (count (joins db (of_tenant binding)) db.nodes)
    || leb 800 (count (joins db (of_principal binding)) db.nodes))

unfoldable pub session_capacity : CursorDb → CursorBinding → Bool
unfolding count
session_capacity db binding = not (
    leb 4096 (count any_session db.sessions)
    || leb 128 (count (of_tenant binding) db.sessions)
    || leb 16 (count (of_principal binding) db.sessions))

-- The expired session that expires first.
abbrev earlier : Option (Uuid × Time) → Uuid × Time → Option (Uuid × Time)
earlier none row = some row
earlier (some best) row = if ltb row.1 best.1 then some row else some best

unfoldable pub first_expired :
    Time → Option (Uuid × Time) → Table CursorSession → Option (Uuid × Time)
first_expired now best [] = best
first_expired now best ((id, session) ∷ rest) =
    first_expired now
      (if leb session.expires_at now then earlier best (id, session.expires_at) else best) rest

unfoldable pub remove_if : {A : Type 0} → (ℕ → A → Bool) → Table A → Table A
remove_if test [] = []
remove_if test ((k, v) ∷ rest) =
    if test k v then remove_if test rest else (k, v) ∷ remove_if test rest

abbrev pub drop_session : Option (Uuid × Time) → CursorDb → CursorDb
drop_session none db = db
drop_session (some (id, t)) db = record {
  sessions = remove_if (λ k v. k == id) db.sessions;
  nodes = remove_if (λ k v. v.session == id) db.nodes;
}

-- `delete`, which removes the nodes of the session with it.
unfoldable pub delete_expired : Time → CursorDb → CursorDb
unfolding first_expired remove_if
delete_expired now db = drop_session (first_expired now none db.sessions) db

abbrev pub insert_absent :
    {A : Type 0} → Option A → Uuid → A → Table A → Result CursorError (Table A)
insert_absent (some old) key row table = err cursor_database
insert_absent none key row table = ok (put key row table)

-- An insert of a row whose key must be new.
unfoldable pub insert : {A : Type 0} → Uuid → A → Table A → Result CursorError (Table A)
unfolding find
insert key row table = insert_absent (find key table) key row table

abbrev pub session_of : Time → CursorBinding → CursorSession
session_of now binding = record { binding = binding; expires_at = now + 30 * minute }

-- The node of a token with its session, where the session is the caller's.
abbrev pub owned_session :
    CursorBinding → CursorRow → Option CursorSession → Option (CursorRow × CursorSession)
owned_session binding row none = none
owned_session binding row (some session) =
    if same_binding session.binding binding then some (row, session) else none

abbrev pub join_row :
    CursorDb → CursorBinding → Option CursorRow → Option (CursorRow × CursorSession)
join_row db binding none = none
join_row db binding (some row) = owned_session binding row (find row.session db.sessions)

unfoldable pub find_node : CursorDb → Uuid → CursorBinding → Option (CursorRow × CursorSession)
unfolding find
find_node db token binding = join_row db binding (find token db.nodes)

abbrev pub or_empty : Option String → String
or_empty none = ""
or_empty (some digest) = digest
