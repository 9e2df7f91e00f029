-- ===== src/Store/Cursors/Committed.antt =====
-- What the transactions of internal/adapter/postgres/operational_cursor.go promise: a page that
-- was committed stays.
use Prim.Native.String.{len}
use ouf_mcp_server.Prelude.{
  ℕ, suc, ◌*◌, String, Bool, not, ◌||◌, Option, none, some, is_some, ltb, ◌==◌, ◌≡◌, ◌≢◌, refl, sym,
  ap, ◌∙◌, subst, if◌then◌else◌, blank, ◌differs◌, ok, ok-injective, bind-ok, else-ok, Bool-cases,
  Option-cases, inl, inr, if-true, if-false, ==_iff,
}
use ouf_mcp_server.Orchestration.Domain.{Time, Uuid}
use ouf_mcp_server.Operational.Incidents.{agree}
use ouf_mcp_server.Operational.Frames.{CursorFrame, CursorBinding}
use ouf_mcp_server.Operational.Serve.Served.{unless-ok}
use ouf_mcp_server.Store.Table.{
  Table, find, modify, put, find-put, find-modify_self, find-modify_ne,
}
use ouf_mcp_server.Store.CursorTables.{
  CursorSession, CursorRow, CursorDb, Metadata, valid_cursor_binding, cursor_node_capacity, insert,
  insert_absent, find_node, or_empty,
}
use ouf_mcp_server.Store.Cursors.{new_row, insert_node, same_cursor_scope}
use ouf_mcp_server.Store.Cursors.Commit.{
  closed_row, close_page, retained, commit_again, commit_first, commit_row, valid_next,
  commit_incident_cursor_page,
}

insert_absent-ok :
    {A : Type 0} (old : Option A) (key : Uuid) (row : A) (table : Table A) {t : Table A}
    → insert_absent old key row table ≡ ok t
    → (old ≡ none) × (put key row table ≡ t)
insert_absent-ok (some old) key row table h = cc
insert_absent-ok none key row table h = (refl, ok-injective h)

pub insert-ok :
    {A : Type 0} (key : Uuid) (row : A) (table : Table A) {t : Table A}
    → insert key row table ≡ ok t
    → (find key table ≡ none) × (put key row table ≡ t)
unfolding insert
insert-ok key row table h = insert_absent-ok (find key table) key row table h

closed_row-committed :
    (digest : String) (next : Option Uuid) (row : CursorRow)
    → row.page_digest ≢ none
    → closed_row row.page_digest digest next row ≡ row
closed_row-committed digest next row committed = elim (Option-cases row.page_digest) [
  | inl e ↦ elim (committed e) [ ]
  | inr (old, e) ↦ ap (λ d. closed_row d digest next row) e
]

-- A commit leaves a row that was committed before.
close_page-keeps :
    (token : Uuid) (digest : String) (next : Option Uuid) (db : CursorDb) (k : Uuid)
    {row : CursorRow}
    → find k db.nodes ≡ some row
    → row.page_digest ≢ none
    → find k (close_page token digest next db).nodes ≡ some row
close_page-keeps token digest next db k {row} h committed =
    let close = λ (r : CursorRow). closed_row r.page_digest digest next r in
    elim (Bool-cases (token == k)) [
      | inl e ↦
          let same : token ≡ k = (==_iff token k).0 e in
          ap (λ i. find k (modify i close db.nodes)) same
          ∙ find-modify_self k close db.nodes h
          ∙ ap some (closed_row-committed digest next row committed)
      | inr e ↦ find-modify_ne token k close db.nodes e ∙ h
    ]

pub find-insert :
    (key : Uuid) (new : CursorRow) (nodes : Table CursorRow) {t : Table CursorRow} (k : Uuid)
    {row : CursorRow}
    → insert key new nodes ≡ ok t
    → find k nodes ≡ some row
    → find k t ≡ some row
find-insert key new nodes {t} k {row} h found =
    let (absent, same) = insert-ok key new nodes h in
    elim (Bool-cases (key == k)) [
      | inl e ↦ cc (absent, found, ap (λ i. find i nodes) ((==_iff key k).0 e))
      | inr e ↦
          ap (find k) (sym same)
          ∙ find-put key k new nodes
          ∙ ap (λ b. if b then some new else find k nodes) e
          ∙ found
    ]

module _ (meta : Metadata) where
  pub insert_node-insert :
      (token session : Uuid) (number : ℕ) (frame : CursorFrame) (nodes : Table CursorRow)
      {t : Table CursorRow}
      → insert_node meta token session number frame nodes ≡ ok t
      → insert token (new_row meta session number frame) nodes ≡ ok t
  insert_node-insert token session number frame nodes h =
      (else-ok (ltb (16 * 1024) (meta.metadata_size frame)) _ _ h).1

  pub commit_again-same :
      (db : CursorDb) (row : CursorRow) (digest : String) (next : Option CursorFrame)
      {after : CursorDb} {answer : Option Uuid}
      → commit_again meta db row digest next ≡ ok (after, answer)
      → ◌≡◌ {A = CursorDb × Option Uuid} (db, row.next_token) (after, answer)
  commit_again-same db row digest next h =
      bind-ok (retained meta db row next)
        (else-ok
          (or_empty row.page_digest differs digest
            || not (agree (is_some next) (is_some row.next_token)))
          _ _ h).1
        (λ u p k. ok-injective k)

  commit_first-keeps :
      (db : CursorDb) (token candidate : Uuid) (binding : CursorBinding) (old : CursorRow)
      (digest : String) (next : Option CursorFrame) {after : CursorDb} {answer : Option Uuid}
      (k : Uuid) {row : CursorRow}
      → commit_first meta db token candidate binding old digest next ≡ ok (after, answer)
      → find k db.nodes ≡ some row
      → row.page_digest ≢ none
      → find k after.nodes ≡ some row
  commit_first-keeps db token candidate binding old digest none k {row} h found committed =
      subst (λ (p : CursorDb × Option Uuid). find k p.0.nodes ≡ some row) (ok-injective h)
        (close_page-keeps token digest none db k found committed)
  commit_first-keeps db token candidate binding old digest (some next) k {row} h found committed =
      let scope =
        else-ok
          (not (next.page_number == suc old.page_number)
            || not (same_cursor_scope meta old.metadata next))
          _ _ h in
      bind-ok (insert_node meta candidate old.session next.page_number next db.nodes)
        (else-ok (not (cursor_node_capacity db binding)) _ _ scope.1).1
        (λ nodes p m.
          subst (λ (q : CursorDb × Option Uuid). find k q.0.nodes ≡ some row) (ok-injective m)
            (close_page-keeps token digest (some candidate) (record db { nodes = nodes }) k
              (find-insert candidate _ db.nodes k
                (insert_node-insert candidate old.session next.page_number next db.nodes p) found)
              committed))

  commit_row-keeps :
      (db : CursorDb) (now : Time) (token candidate : Uuid) (binding : CursorBinding)
      (digest : String) (next : Option CursorFrame) (joined : Option (CursorRow × CursorSession))
      {after : CursorDb} {answer : Option Uuid} (k : Uuid) {row : CursorRow}
      → commit_row meta db now token candidate binding digest next joined ≡ ok (after, answer)
      → find k db.nodes ≡ some row
      → row.page_digest ≢ none
      → find k after.nodes ≡ some row
  commit_row-keeps db now token candidate binding digest next none k h found committed = cc
  commit_row-keeps db now token candidate binding digest next (some (old, session)) k {row} h found
        committed =
      let live = else-ok (not (ltb now session.expires_at)) _ _ h in
      elim (Bool-cases (not (blank (or_empty old.page_digest)))) [
        | inl e ↦
            subst (λ (p : CursorDb × Option Uuid). find k p.0.nodes ≡ some row)
              (commit_again-same db old digest next
                (if-true (not (blank (or_empty old.page_digest))) _ _ e live.1))
              found
        | inr e ↦
            commit_first-keeps db token candidate binding old digest next k
              (if-false (not (blank (or_empty old.page_digest))) _ _ e live.1) found committed
      ]

-- A page that is committed is never replaced: no commit changes its node, whatever it commits.
pub commit_incident_cursor_page-keeps :
    (meta : Metadata) (db : CursorDb) (locked : Bool) (now : Time) (token candidate : Uuid)
    (binding : CursorBinding) (digest : String) (next : Option CursorFrame) {after : CursorDb}
    {answer : Option Uuid} (k : Uuid) {row : CursorRow}
    → commit_incident_cursor_page meta db locked now token candidate binding digest next
      ≡ ok (after, answer)
    → find k db.nodes ≡ some row
    → row.page_digest ≢ none
    → find k after.nodes ≡ some row
unfolding commit_incident_cursor_page
commit_incident_cursor_page-keeps meta db locked now token candidate binding digest next k h found
      committed =
    let shape = else-ok (not (len digest == 64) || not (valid_cursor_binding binding)) _ _ h in
    let valid = unless-ok (valid_next meta next) _ shape.1 in
    commit_row-keeps meta db now token candidate binding digest next (find_node db token binding) k
      (else-ok (not locked) _ _ valid.1).1 found committed
