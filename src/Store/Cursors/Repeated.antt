-- ===== src/Store/Cursors/Repeated.antt =====
-- A commit of `CommitIncidentCursorPage` of internal/adapter/postgres/operational_cursor.go that is
-- repeated, as by a client that lost the answer.
use Prim.Native.String.len
use Prim.Native.String.{len}
use ouf_mcp_server.Prelude.{
  suc, String, true, false, not, ◌||◌, Option, none, some, is_some, ltb, ◌==◌, ◌≡◌, ◌≢◌, refl, sym,
  ap, ◌∙◌, subst, blank, is_refl, is→≡, ok, ok-injective, bind-ok, else-ok, ||-false, not-false,
  ==_iff, Bool-cases, Option-cases, inl, inr, if-true, if-false, some-injective,
}
use ouf_mcp_server.Orchestration.Domain.{Time, Uuid}
use ouf_mcp_server.Operational.Incidents.{agree}
use ouf_mcp_server.Operational.Frames.{CursorFrame, CursorBinding}
use ouf_mcp_server.Operational.Serve.Served.{unless-ok}
use ouf_mcp_server.Store.Table.{Table, find, find-put_self, find-modify_self, find-modify_ne}
use ouf_mcp_server.Store.CursorTables.{
  CursorSession, CursorRow, CursorDb, Metadata, valid_cursor_binding, same_binding,
  cursor_node_capacity, owned_session, join_row, find_node, or_empty,
}
use ouf_mcp_server.Store.Cursors.{new_row, insert_node, same_cursor_scope}
use ouf_mcp_server.Store.Cursors.Commit.{
  closed_row, close_page, retained, same_metadata, commit_again, commit_first, commit_row,
  valid_next, commit_incident_cursor_page,
}
use ouf_mcp_server.Store.Cursors.Committed.{
  insert-ok, insert_node-insert, find-insert, commit_again-same,
}

-- The column of a digest holds no empty text, as its check demands.
abbrev pub HasDigests : CursorDb → Type 0
HasDigests db =
    (k : Uuid) (row : CursorRow) → find k db.nodes ≡ some row → row.page_digest ≢ some ""

-- A frame that the database gives back has the same canonical text.
abbrev pub KeepsText : Metadata → Type 0
KeepsText meta = (frame : CursorFrame) → meta.canonical (meta.stored frame) ≡ meta.canonical frame

keys-apart :
    (a b : Uuid) (t : Table CursorRow) {row : CursorRow}
    → find a t ≡ some row
    → find b t ≡ none
    → (a == b) ≡ false
keys-apart a b t found absent = elim (Bool-cases (a == b)) [
  | inl e ↦ cc (found, absent, ap (λ i. find i t) ((==_iff a b).0 e))
  | inr e ↦ e
]

written-row :
    (stored : Option String) {old : String}
    → stored ≡ some old
    → stored ≢ some ""
    → not (blank (or_empty stored)) ≡ true
written-row stored {old} e nonempty = elim (Bool-cases (blank old)) [
  | inl b ↦ elim (nonempty (e ∙ ap some (is→≡ old "" b))) [ ]
  | inr b ↦ ap (λ o. not (blank (or_empty o))) e ∙ ap not b
]

digest-some : (digest : String) → len digest ≡ 64 → blank digest ≡ false
digest-some digest h = elim (Bool-cases (blank digest)) [
  | inl e ↦ cc (h, ap len (is→≡ digest "" e), len.nil)
  | inr e ↦ e
]

owned_session-some :
    (binding : CursorBinding) (old : CursorRow) (found : Option CursorSession) {row : CursorRow}
    {session : CursorSession}
    → owned_session binding old found ≡ some (row, session)
    → (old ≡ row) × (found ≡ some session) × (same_binding session.binding binding ≡ true)
owned_session-some binding old none h = cc
owned_session-some binding old (some s) {row} {session} h =
    elim (Bool-cases (same_binding s.binding binding)) [
      | inl e ↦
          let k = some-injective (if-true (same_binding s.binding binding) _ _ e h) in
          let same : s ≡ session = ap (λ (p : CursorRow × CursorSession). p.1) k in
          (
            ap (λ (p : CursorRow × CursorSession). p.0) k,
            ap some same,
            subst (λ (x : CursorSession). same_binding x.binding binding ≡ true) same e,
          )
      | inr e ↦ cc (if-false (same_binding s.binding binding) _ _ e h)
    ]

join_row-some :
    (db : CursorDb) (binding : CursorBinding) (found : Option CursorRow) {row : CursorRow}
    {session : CursorSession}
    → join_row db binding found ≡ some (row, session)
    → (found ≡ some row)
      × (find row.session db.sessions ≡ some session)
      × (same_binding session.binding binding ≡ true)
join_row-some db binding none h = cc
join_row-some db binding (some old) h =
    let (same, joined, caller) = owned_session-some binding old (find old.session db.sessions) h in
    (ap some same, ap (λ (r : CursorRow). find r.session db.sessions) (sym same) ∙ joined, caller)

-- What a token that the caller owns stands for.
find_node-parts :
    (db : CursorDb) (token : Uuid) (binding : CursorBinding) {row : CursorRow}
    {session : CursorSession}
    → find_node db token binding ≡ some (row, session)
    → (find token db.nodes ≡ some row)
      × (find row.session db.sessions ≡ some session)
      × (same_binding session.binding binding ≡ true)
unfolding find_node
find_node-parts db token binding h = join_row-some db binding (find token db.nodes) h

find_node-made :
    (db : CursorDb) (token : Uuid) (binding : CursorBinding) (row : CursorRow)
    (session : CursorSession)
    → find token db.nodes ≡ some row
    → find row.session db.sessions ≡ some session
    → same_binding session.binding binding ≡ true
    → find_node db token binding ≡ some (row, session)
unfolding find_node
find_node-made db token binding row session found joined caller = rw (found, joined, caller) refl

module _ (meta : Metadata) where
  -- A page whose row is closed with the digest and whose next node holds the frame.
  repeat-ok :
      (db : CursorDb) (row : CursorRow) (digest : String) (next : Option CursorFrame)
      → row.page_digest ≡ some digest
      → agree (is_some next) (is_some row.next_token) ≡ true
      → retained meta db row next ≡ ok tt
      → commit_again meta db row digest next ≡ ok (db, row.next_token)
  repeat-ok db row digest next committed same kept =
      rw (ap or_empty committed, is_refl digest, same, kept) refl

  same_metadata-ok :
      (db : CursorDb) (candidate : Uuid) (next : CursorFrame) (new : CursorRow)
      → find candidate db.nodes ≡ some new
      → meta.canonical new.metadata ≡ meta.canonical next
      → same_metadata meta next (find candidate db.nodes) ≡ ok tt
  same_metadata-ok db candidate next new found same =
      rw (found, same, is_refl (meta.canonical next)) refl

  -- The row of a page that was just committed.
  abbrev pub committed_row : String → Option Uuid → CursorRow → CursorRow
  committed_row digest next_token row = record row {
    page_digest = some digest;
    next_token = next_token;
  }

  closed-find :
      (token : Uuid) (digest : String) (next_token : Option Uuid) (db : CursorDb) {row : CursorRow}
      → find token db.nodes ≡ some row
      → row.page_digest ≡ none
      → find token (close_page token digest next_token db).nodes
        ≡ some (committed_row digest next_token row)
  closed-find token digest next_token db {row} found first =
      find-modify_self token (λ r. closed_row r.page_digest digest next_token r) db.nodes found
      ∙ ap (λ d. some (closed_row d digest next_token row)) first

  -- A second commit finds the page closed.
  closed-again :
      (after : CursorDb) (now : Time) (token candidate : Uuid) (binding : CursorBinding)
      (digest : String) (next : Option CursorFrame) (next_token : Option Uuid) (row : CursorRow)
      (session : CursorSession)
      → blank digest ≡ false
      → ltb now session.expires_at ≡ true
      → find token after.nodes ≡ some (committed_row digest next_token row)
      → find row.session after.sessions ≡ some session
      → same_binding session.binding binding ≡ true
      → agree (is_some next) (is_some next_token) ≡ true
      → retained meta after (committed_row digest next_token row) next ≡ ok tt
      → commit_row meta after now token candidate binding digest next
          (find_node after token binding)
        ≡ ok (after, next_token)
  closed-again after now token candidate binding digest next next_token row session written live
        found joined caller same kept =
      rw
        (
          find_node-made after token binding (committed_row digest next_token row) session found
              joined caller,
          live,
          written,
        )
        (repeat-ok after (committed_row digest next_token row) digest next refl same kept)

  commit_first-again :
      (db : CursorDb) (now : Time) (token candidate other : Uuid) (binding : CursorBinding)
      (digest : String) (next : Option CursorFrame) (row : CursorRow) (session : CursorSession)
      {after : CursorDb} {answer : Option Uuid}
      → KeepsText meta
      → blank digest ≡ false
      → ltb now session.expires_at ≡ true
      → find token db.nodes ≡ some row
      → find row.session db.sessions ≡ some session
      → same_binding session.binding binding ≡ true
      → row.page_digest ≡ none
      → commit_first meta db token candidate binding row digest next ≡ ok (after, answer)
      → commit_row meta after now token other binding digest next (find_node after token binding)
        ≡ ok (after, answer)
  commit_first-again db now token candidate other binding digest none row session keeps written live
        found joined caller first h =
      subst
        (λ (p : CursorDb × Option Uuid).
          commit_row meta p.0 now token other binding digest none (find_node p.0 token binding)
          ≡ ok p)
        (ok-injective h)
        (closed-again (close_page token digest none db) now token other binding digest none none row
          session written live (closed-find token digest none db found first) joined caller refl
          refl)
  commit_first-again db now token candidate other binding digest (some next) row session keeps
        written live found joined caller first h =
      let scope =
        else-ok
          (not (next.page_number == suc row.page_number)
            || not (same_cursor_scope meta row.metadata next))
          _ _ h in
      bind-ok (insert_node meta candidate row.session next.page_number next db.nodes)
        (else-ok (not (cursor_node_capacity db binding)) _ _ scope.1).1
        (λ nodes p m.
          let new = new_row meta row.session next.page_number next in
          let inserted =
            insert_node-insert meta candidate row.session next.page_number next db.nodes p in
          let (absent, same) = insert-ok candidate new db.nodes inserted in
          let db2 : CursorDb = record db { nodes = nodes } in
          subst
            (λ (q : CursorDb × Option Uuid).
              commit_row meta q.0 now token other binding digest (some next)
                (find_node q.0 token binding)
              ≡ ok q)
            (ok-injective m)
            (closed-again (close_page token digest (some candidate) db2) now token other binding
              digest (some next) (some candidate) row session written live
              (closed-find token digest (some candidate) db2
                (find-insert candidate new db.nodes token inserted found) first)
              joined caller refl
              (same_metadata-ok (close_page token digest (some candidate) db2) candidate next new
                (find-modify_ne token candidate _ nodes
                    (keys-apart token candidate db.nodes found absent)
                  ∙ ap (find candidate) (sym same)
                  ∙ find-put_self candidate new db.nodes)
                (keeps next))))

  -- What a commit leaves is found by the commit that repeats it.
  commit_row-again :
      (db : CursorDb) (now later : Time) (token candidate other : Uuid) (binding : CursorBinding)
      (digest : String) (next : Option CursorFrame) (row : CursorRow) (session : CursorSession)
      {after : CursorDb} {answer : Option Uuid}
      → KeepsText meta
      → HasDigests db
      → blank digest ≡ false
      → find_node db token binding ≡ some (row, session)
      → ltb later session.expires_at ≡ true
      → commit_row meta db now token candidate binding digest next (some (row, session))
        ≡ ok (after, answer)
      → commit_row meta after later token other binding digest next (find_node after token binding)
        ≡ ok (after, answer)
  commit_row-again db now later token candidate other binding digest next row session keeps sound
        written at still h =
      let live = else-ok (not (ltb now session.expires_at)) _ _ h in
      let (found, joined, caller) = find_node-parts db token binding at in
      elim (Option-cases row.page_digest) [
        | inl e ↦
            commit_first-again db later token candidate other binding digest next row session keeps
              written still found joined caller e
              (if-false (not (blank (or_empty row.page_digest))) _ _
                (ap (λ d. not (blank (or_empty d))) e) live.1)
        | inr (old, e) ↦
            let kept : not (blank (or_empty row.page_digest)) ≡ true =
              written-row row.page_digest e (sound token row found) in
            let again = if-true (not (blank (or_empty row.page_digest))) _ _ kept live.1 in
            subst
              (λ (p : CursorDb × Option Uuid).
                commit_row meta p.0 later token other binding digest next
                  (find_node p.0 token binding)
                ≡ ok p)
              (commit_again-same meta db row digest next again)
              (rw (at, still, kept)
                (again ∙ ap ok (sym (commit_again-same meta db row digest next again))))
      ]

-- A commit that is repeated, at any time before the session expires, gives the same token and
-- leaves the database as the first one left it, where no stored digest is empty and stored frames
-- keep their canonical text.
pub commit_incident_cursor_page-again :
    (meta : Metadata) (db : CursorDb) (now later : Time) (token candidate other : Uuid)
    (binding : CursorBinding) (digest : String) (next : Option CursorFrame) (row : CursorRow)
    (session : CursorSession) {after : CursorDb} {answer : Option Uuid}
    → KeepsText meta
    → HasDigests db
    → find_node db token binding ≡ some (row, session)
    → ltb later session.expires_at ≡ true
    → commit_incident_cursor_page meta db true now token candidate binding digest next
      ≡ ok (after, answer)
    → commit_incident_cursor_page meta after true later token other binding digest next
      ≡ ok (after, answer)
unfolding commit_incident_cursor_page
commit_incident_cursor_page-again meta db now later token candidate other binding digest next row
      session keeps sound at still h =
    let shape = else-ok (not (len digest == 64) || not (valid_cursor_binding binding)) _ _ h in
    let valid = unless-ok (valid_next meta next) _ shape.1 in
    rw (shape.0, valid.0)
      (commit_row-again meta db now later token candidate other binding digest next row session
        keeps sound
        (digest-some digest ((==_iff (len digest) 64).0 (not-false _ (||-false _ _ shape.0).0))) at
        still (rw at at valid.1))
