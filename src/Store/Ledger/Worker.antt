-- ===== src/Store/Ledger/Worker.antt =====
-- `MarkStaleAndClaim` of internal/adapter/postgres/store.go keeps the ledger.
use ouf_mcp_server.Prelude.{
  ℕ, ◌+◌, String, true, false, not, Option, some, List, [], ◌∷◌, ◌≡◌, refl, sym, ap, ◌∙◌, subst,
  ◌⊎◌, inl, inr, ok, bind-ok, else-ok, ok-injective, Bool-cases, if◌then◌else◌, ◌||◌, ◌&&◌,
  not-true,
}
use ouf_mcp_server.Prelude.Int.{ℤ, pos, ◌+ℤ◌, ◌-ℤ◌, ◌≤ℤ◌, ltb_ℤ, ltb_ℤ→ge, int_laws}
use ouf_mcp_server.Orchestration.Domain.{Time, Duration, Uuid}
use ouf_mcp_server.Store.Table.{Table, find, modify, put}
use ouf_mcp_server.Store.Schema
use ouf_mcp_server.Store.Schema.Rows.{row-ok, update_window-ok, exec_one-ok}
use ouf_mcp_server.Store.Recovery.{
  is_reserved, each, release, release_reservation, expire_admission, release_admission, not_started,
  complete_claim, is_bound, indebt, doubt_reservation, new_debt, insert_debt, expire_dispatch,
  doubt_dispatch, lose_attempt, block_guard, doubt_claim, claim_attempt, Candidate, candidates,
  stale_admissions, stale_dispatches, in_recovery, mark_stale_and_claim, past, is_running,
  is_unknown, lease_attempt,
}
use ouf_mcp_server.Store.Attempt.{is_admitted, is_not_dispatched}
use ouf_mcp_server.Store.Ledger.{IsLedger, IsBook}
use ouf_mcp_server.Store.Ledger.Moves.{IsShift, IsBook-move, IsBook-doubt}
use ouf_mcp_server.Store.Ledger.Attempts.{held-reserved, cancel}

release-IsShift :
    (now : Time) (r : Schema.Reservation) (w : Schema.BudgetWindow)
    → is_reserved r.state ≡ true
    → IsShift r (release_reservation now) w (release r)
release-IsShift now r w h = record {
  same_window = λ s. refl;
  same_objects = λ s. refl;
  calls =
      ap (λ x. w.reserved_tool_calls -ℤ r.reserved_tool_calls +ℤ x)
        (held-reserved r.state r.reserved_tool_calls h).0
      ∙ cancel _ _;
  bytes =
      ap (λ x. w.reserved_result_bytes -ℤ r.reserved_result_bytes +ℤ x)
        (held-reserved r.state r.reserved_result_bytes h).0
      ∙ cancel _ _;
  objects =
      ap (λ x. w.reserved_distinct_objects -ℤ r.reserved_distinct_objects_max +ℤ x)
        (held-reserved r.state r.reserved_distinct_objects_max h).1
      ∙ cancel _ _;
}

-- The row that a successful `execOne` changed is the one that was read.
pub same_row :
    {a b : Schema.Reservation} {o : Option Schema.Reservation} → o ≡ some a → o ≡ some b → b ≡ a
same_row p q = cc

-- The window moves by the release of a held reservation, found again by `exec_one`.
released-IsLedger :
    (now : Time) (id k : Uuid) (r : Schema.Reservation) (db : Schema.Db)
    {rs : Table Schema.Reservation}
    → IsLedger db
    → find id db.reservations ≡ some r
    → k ≡ r.budget_window_id
    → Schema.exec_one id (λ s. is_reserved s.state) (release_reservation now) db.reservations
      ≡ ok rs
    → IsBook (modify k (release r) db.windows) rs db.debts db.contexts
released-IsLedger now id k r db {rs} ledger there at_window h =
    let (s, hs, live, e) =
      exec_one-ok id (λ s. is_reserved s.state) (release_reservation now) db.reservations h in
    let (w, window) = ledger.window_there id r there in
    let same : s ≡ r = same_row there hs in
    subst (λ t. IsBook (modify k (release r) db.windows) t db.debts db.contexts) (sym e)
      (subst
        (λ j.
          IsBook (modify j (release r) db.windows)
            (modify id (release_reservation now) db.reservations) db.debts db.contexts)
        (sym at_window)
        (IsBook-move ledger id r w (release_reservation now) (release r) there window
          (release-IsShift now r w (subst (λ x. is_reserved x.state ≡ true) same live))
          (λ u. refl)))

expire_read :
    (now : Time) (id : Uuid) (db : Schema.Db) {db' : Schema.Db}
    → expire_admission now id db ≡ ok db'
    → (c : Schema.AdmissionContext) × (r : Schema.Reservation) × (a : Schema.ToolAttempt) × (find id
          db.contexts
        ≡ some c)
      × (find id db.reservations ≡ some r)
      × ((if not (is_admitted a.state) then ok db else release_admission now id c r a db) ≡ ok db')
unfolding expire_admission
expire_read now id db h = bind-ok (Schema.row (find id db.contexts)) h (λ c hc h1.
    bind-ok (Schema.row (find id db.reservations)) h1 (λ r hr h2.
      bind-ok (Schema.row (find id db.attempts)) h2 (λ a ha h3.
        (c, r, a, row-ok (find id db.contexts) hc, row-ok (find id db.reservations) hr, h3))))

release_admission-IsLedger :
    (now : Time) (id : Uuid) (c : Schema.AdmissionContext) (r : Schema.Reservation)
    (a : Schema.ToolAttempt) (db : Schema.Db) {db' : Schema.Db}
    → IsLedger db
    → find id db.contexts ≡ some c
    → find id db.reservations ≡ some r
    → release_admission now id c r a db ≡ ok db'
    → IsLedger db'
unfolding release_admission
release_admission-IsLedger now id c r a db ledger context there h =
    bind-ok (Schema.update_window c.budget_window_id (release r) db) h (λ db1 hw h1.
      let e1 = update_window-ok c.budget_window_id (release r) db hw in
      bind-ok
        (Schema.exec_one id (λ b. is_admitted b.state && is_not_dispatched b.dispatch_state)
          (not_started now) db1.attempts)
        h1
        (λ ts ht h2.
          bind-ok
            (Schema.exec_one id (λ s. is_reserved s.state) (release_reservation now)
              db1.reservations)
            h2
            (λ rs hs h3.
              bind-ok (Schema.exec_one id is_bound complete_claim db1.claims) h3 (λ ks hk h4.
                subst IsLedger (ok-injective h4) (
                  subst (λ d. IsBook d.windows rs d.debts d.contexts) (sym e1)
                    (released-IsLedger now id c.budget_window_id r db ledger there
                      (ledger.one_window id c r context there)
                      (subst
                        (λ d.
                          Schema.exec_one id (λ s. is_reserved s.state) (release_reservation now)
                            d.reservations
                          ≡ ok rs)
                        e1 hs)))))))

-- A round that fails a stale admission keeps the ledger balanced.
pub expire_admission-IsLedger :
    (now : Time) (id : Uuid) (db : Schema.Db) {db' : Schema.Db}
    → IsLedger db
    → expire_admission now id db ≡ ok db'
    → IsLedger db'
expire_admission-IsLedger now id db ledger h =
    let (c, r, a, hc, hr, rest) = expire_read now id db h in
    elim (Bool-cases (not (is_admitted a.state))) [
      | inl skip ↦ subst IsLedger (ok-injective (rw skip at rest)) ledger
      | inr live ↦ release_admission-IsLedger now id c r a db ledger hc hr (rw live at rest)
    ]

indebt-IsShift :
    (r : Schema.Reservation) (w : Schema.BudgetWindow)
    → is_reserved r.state ≡ true
    → IsShift r doubt_reservation w (indebt r)
indebt-IsShift r w h = record {
  same_window = λ s. refl;
  same_objects = λ s. refl;
  calls = ap (λ x. w.reserved_tool_calls +ℤ x) (held-reserved r.state r.reserved_tool_calls h).0;
  bytes =
      ap (λ x. w.reserved_result_bytes +ℤ x) (held-reserved r.state r.reserved_result_bytes h).0;
  objects =
      ap (λ x. w.reserved_distinct_objects -ℤ r.reserved_distinct_objects_max +ℤ x)
        (held-reserved r.state r.reserved_distinct_objects_max h).1
      ∙ cancel _ _;
}

none_owed : (a n : ℤ) → pos 0 ≤ℤ n → n ≤ℤ pos 0 → a +ℤ n ≡ a
none_owed a n h k = omega int_laws

-- A doubt without objects leaves the debts alone; one with objects inserts the debt of the attempt.
insert_debt-cases :
    (id k : Uuid) (r : Schema.Reservation) (db : Schema.Db) {db' : Schema.Db}
    → insert_debt id r k db ≡ ok db'
    → ((ltb_ℤ (pos 0) r.reserved_distinct_objects_max ≡ false) × (db' ≡ db))
      ⊎ (db' ≡ record db { debts = put id (new_debt r k) db.debts })
unfolding insert_debt
insert_debt-cases id k r db h =
    elim (Bool-cases (not (ltb_ℤ (pos 0) r.reserved_distinct_objects_max))) [
      | inl e ↦ inl (not-true _ e, sym (ok-injective (rw e at h)))
      | inr e ↦ inr (sym (ok-injective (else-ok _ _ _ (rw e at h)).1))
    ]

doubted-IsBook :
    (id : Uuid) (r : Schema.Reservation) (db : Schema.Db) {db2 : Schema.Db}
    → IsLedger db
    → find id db.reservations ≡ some r
    → is_reserved r.state ≡ true
    → insert_debt id r r.budget_window_id
        (record db { windows = modify r.budget_window_id (indebt r) db.windows })
      ≡ ok db2
    → IsBook db2.windows (modify id doubt_reservation db2.reservations) db2.debts db2.contexts
doubted-IsBook id r db ledger there live h =
    let (w, window) = ledger.window_there id r there in
    elim (insert_debt-cases id r.budget_window_id r _ h) [
      | inl (e, same) ↦
          subst
            (λ d. IsBook d.windows (modify id doubt_reservation d.reservations) d.debts d.contexts)
            (sym same)
            (IsBook-move ledger id r w doubt_reservation (indebt r) there window
              (indebt-IsShift r w live)
              (λ u.
                none_owed u.current_unresolved_object_debt_total r.reserved_distinct_objects_max
                  (ledger.objects_nonneg id r there)
                  (ltb_ℤ→ge (pos 0) r.reserved_distinct_objects_max e)))
      | inr same ↦
          subst
            (λ d. IsBook d.windows (modify id doubt_reservation d.reservations) d.debts d.contexts)
            (sym same)
            (IsBook-doubt ledger id r w (new_debt r r.budget_window_id) doubt_reservation (indebt r)
              there window refl (indebt-IsShift r w live) refl)
    ]

-- What `insert_debt` leaves of the reservations.
insert_debt-reservations :
    (id k : Uuid) (r : Schema.Reservation) (db : Schema.Db) {db' : Schema.Db}
    → insert_debt id r k db ≡ ok db'
    → db'.reservations ≡ db.reservations
insert_debt-reservations id k r db h = elim (insert_debt-cases id k r db h) [
  | inl (e, same) ↦ ap (λ d. d.reservations) same
  | inr same ↦ ap (λ d. d.reservations) same
]

doubt_rows :
    (id : Uuid) (c : Schema.AdmissionContext) (r : Schema.Reservation) (db : Schema.Db)
    {db1 db2 : Schema.Db} {rs : Table Schema.Reservation}
    → IsLedger db
    → c.budget_window_id ≡ r.budget_window_id
    → find id db.reservations ≡ some r
    → db1 ≡ record db { windows = modify c.budget_window_id (indebt r) db.windows }
    → insert_debt id r c.budget_window_id db1 ≡ ok db2
    → Schema.exec_one id (λ s. is_reserved s.state) doubt_reservation db2.reservations ≡ ok rs
    → IsBook db2.windows rs db2.debts db2.contexts
doubt_rows id c r db {db1} {db2} {rs} ledger at_window there e1 hd hs =
    let (s, found, live, e) =
      exec_one-ok id (λ s. is_reserved s.state) doubt_reservation db2.reservations hs in
    let rows : db2.reservations ≡ db.reservations =
      insert_debt-reservations id c.budget_window_id r db1 hd ∙ ap (λ d. d.reservations) e1 in
    let same : s ≡ r = same_row there (subst (λ t. find id t ≡ some s) rows found) in
    subst (λ t. IsBook db2.windows t db2.debts db2.contexts) (sym e)
      (doubted-IsBook id r db ledger there (subst (λ x. is_reserved x.state ≡ true) same live) (
        subst
          (λ j.
            insert_debt id r j (record db { windows = modify j (indebt r) db.windows }) ≡ ok db2)
          at_window (subst (λ d. insert_debt id r c.budget_window_id d ≡ ok db2) e1 hd)))

doubt_dispatch-IsLedger :
    (now : Time) (id : Uuid) (c : Schema.AdmissionContext) (r : Schema.Reservation) (db : Schema.Db)
    {db' : Schema.Db}
    → IsLedger db
    → find id db.contexts ≡ some c
    → find id db.reservations ≡ some r
    → doubt_dispatch now id c r db ≡ ok db'
    → IsLedger db'
unfolding doubt_dispatch
doubt_dispatch-IsLedger now id c r db ledger context there h =
    bind-ok (Schema.exec_one id (λ b. is_running b.state) (lose_attempt now) db.attempts) h
      (λ ts ht h1.
        bind-ok (Schema.exec_one c.equivalence_group_id (λ g. true) block_guard db.guards) h1
          (λ gs hg h2.
            bind-ok (Schema.update_window c.budget_window_id (indebt r) db) h2 (λ db1 hw h3.
              bind-ok (insert_debt id r c.budget_window_id db1) h3 (λ db2 hd h4.
                bind-ok
                  (Schema.exec_one id (λ s. is_reserved s.state) doubt_reservation db2.reservations)
                  h4
                  (λ rs hs h5.
                    bind-ok (Schema.exec_one id is_bound doubt_claim db2.claims) h5 (λ ks hk h6.
                      subst IsLedger (ok-injective h6) (
                        doubt_rows id c r db ledger (ledger.one_window id c r context there) there
                          (update_window-ok c.budget_window_id (indebt r) db hw) hd hs)))))))

expire_dispatch-read :
    (now : Time) (id : Uuid) (db : Schema.Db) {db' : Schema.Db}
    → expire_dispatch now id db ≡ ok db'
    → (c : Schema.AdmissionContext) × (r : Schema.Reservation) × (a : Schema.ToolAttempt) × (find id
          db.contexts
        ≡ some c)
      × (find id db.reservations ≡ some r)
      × ((if not (is_running a.state) || not (past a.lease_until now)
            then ok db
            else doubt_dispatch now id c r db)
          ≡ ok db')
unfolding expire_dispatch
expire_dispatch-read now id db h = bind-ok (Schema.row (find id db.contexts)) h (λ c hc h1.
    bind-ok (Schema.row (find id db.reservations)) h1 (λ r hr h2.
      bind-ok (Schema.row (find id db.attempts)) h2 (λ a ha h3.
        (c, r, a, row-ok (find id db.contexts) hc, row-ok (find id db.reservations) hr, h3))))

-- A round that puts a dispatched attempt in doubt keeps the ledger balanced.
pub expire_dispatch-IsLedger :
    (now : Time) (id : Uuid) (db : Schema.Db) {db' : Schema.Db}
    → IsLedger db
    → expire_dispatch now id db ≡ ok db'
    → IsLedger db'
expire_dispatch-IsLedger now id db ledger h =
    let (c, r, a, hc, hr, rest) = expire_dispatch-read now id db h in
    elim (Bool-cases (not (is_running a.state) || not (past a.lease_until now))) [
      | inl skip ↦ subst IsLedger (ok-injective (rw skip at rest)) ledger
      | inr live ↦ doubt_dispatch-IsLedger now id c r db ledger hc hr (rw live at rest)
    ]

claim_attempt-IsLedger :
    (worker : String) (until : Time) (id : Uuid) (db : Schema.Db) {db' : Schema.Db}
    → IsLedger db
    → claim_attempt worker until id db ≡ ok db'
    → IsLedger db'
unfolding claim_attempt
claim_attempt-IsLedger worker until id db ledger h =
    bind-ok (Schema.exec_one id (λ a. is_unknown a.state) (lease_attempt worker until) db.attempts)
      h (λ ts ht h1. subst IsLedger (ok-injective h1) ledger)

pub each-IsLedger :
    (body : Uuid → Schema.Db → Schema.Tx)
    → ((id : Uuid) (d d' : Schema.Db) → IsLedger d → body id d ≡ ok d' → IsLedger d')
    → (ids : List Uuid) (db : Schema.Db) {db' : Schema.Db} → IsLedger db
    → each body ids db ≡ ok db'
    → IsLedger db'
unfolding each
each-IsLedger body keeps [] db ledger h = subst IsLedger (ok-injective h) ledger
each-IsLedger body keeps (id ∷ ids) db ledger h =
    bind-ok (body id db) h (λ d hd h1. each-IsLedger body keeps ids d (keeps id db d ledger hd) h1)

-- A run of the maintenance worker keeps the ledger balanced, whichever attempts it selects.
pub mark_stale_and_claim-IsLedger :
    (now admitted_before : Time) (worker : String) (lease : Duration) (limit : ℕ) (db : Schema.Db)
    {found : List Candidate} {db' : Schema.Db}
    → IsLedger db
    → mark_stale_and_claim now admitted_before worker lease limit db ≡ ok (found, db')
    → IsLedger db'
unfolding mark_stale_and_claim
mark_stale_and_claim-IsLedger now admitted_before worker lease limit db {found} {db'} ledger h =
    let l1 = stale_admissions limit admitted_before db in
    bind-ok (each (expire_admission now) l1 db) h (λ db1 e1 h1.
      let l2 = stale_dispatches limit now db1 in
      bind-ok (each (expire_dispatch now) l2 db1) h1 (λ db2 e2 h2.
        let l3 = in_recovery limit now db2 in
        bind-ok (candidates db2 l3) h2 (λ cs ec h3.
          bind-ok (each (claim_attempt worker (now + lease)) l3 db2) h3 (λ db3 e3 h4.
            subst IsLedger (ap (λ p. p.1) (ok-injective h4)) (
              each-IsLedger (claim_attempt worker (now + lease))
                (λ id d d'. claim_attempt-IsLedger worker (now + lease) id d {db' = d'}) l3 db2
                (each-IsLedger (expire_dispatch now)
                  (λ id d d'. expire_dispatch-IsLedger now id d {db' = d'}) l2 db1
                  (each-IsLedger (expire_admission now)
                    (λ id d d'. expire_admission-IsLedger now id d {db' = d'}) l1 db ledger e1)
                  e2)
                e3)))))
