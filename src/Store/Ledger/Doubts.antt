-- ===== src/Store/Ledger/Doubts.antt =====
-- The transactions that end a doubt keep the ledger: `ApplyOwnerEvidence` and `ExpireUnknown`.
use ouf_mcp_server.Prelude.{
  ℕ, String, true, not, some, ◌≡◌, refl, sym, ap, ◌∙◌, subst, inl, inr, arith, ok, bind-ok, else-ok,
  ok-injective, Bool-cases, ◌&&◌, ◌is◌,
}
use ouf_mcp_server.Prelude.Int.{ℤ, pos, ◌+ℤ◌, ◌-ℤ◌, ltb_ℤ}
use ouf_mcp_server.Orchestration.Domain.{Time, Uuid}
use ouf_mcp_server.Store.Table.{Table, find, modify}
use ouf_mcp_server.Store.Schema
use ouf_mcp_server.Store.Schema.Rows.{row-ok, update_window-ok, exec_one-ok}
use ouf_mcp_server.Store.Recovery.{
  in_doubt, is_unknown, complete_claim, claim_in_doubt, unblock_guard,
}
use ouf_mcp_server.Store.OwnerOutcome.{
  OwnerAnswer, final, consume, end_attempt, end_reservation, is_blocking, equals, unclaim, is_over,
  is_foreign, end_doubt, settle_doubt, apply_owner_evidence, hold_expired, forget_doubt,
  expire_hold, long_unknown, expire_unknown,
}
use ouf_mcp_server.Store.Ledger.{held, certain, IsLedger, IsBook}
use ouf_mcp_server.Store.Ledger.Moves.{IsShift, IsBook-move}
use ouf_mcp_server.Store.Ledger.Attempts.{cancel}
use ouf_mcp_server.Store.Ledger.Worker.{same_row, each-IsLedger}

-- A state that holds nothing.
abbrev IsEnded : Schema.ReservationState → Type 0
IsEnded s = (n : ℤ) → (held s n ≡ pos 0) × (certain s n ≡ pos 0)

final-IsEnded : (answer : OwnerAnswer) → IsEnded (final answer).reservation_state
unfolding final
final-IsEnded answer n = elim (Bool-cases (answer.outcome is "NOT_DISPATCHED")) [
  | inl e ↦ rw e (refl, refl)
  | inr e ↦ rw e (refl, refl)
]

held-in_doubt :
    (s : Schema.ReservationState) (n : ℤ)
    → in_doubt s ≡ true
    → (held s n ≡ n) × (certain s n ≡ pos 0)
held-in_doubt s n h = ground arith

consume-IsShift :
    (r : Schema.Reservation) (g : Schema.Reservation → Schema.Reservation) (w : Schema.BudgetWindow)
    (calls bytes : ℤ)
    → in_doubt r.state ≡ true
    → IsEnded (g r).state
    → ((s : Schema.Reservation) → (g s).budget_window_id ≡ s.budget_window_id)
    → ((s : Schema.Reservation)
        → (g s).reserved_distinct_objects_max ≡ s.reserved_distinct_objects_max)
    → IsShift r g w (consume r calls bytes)
consume-IsShift r g w calls bytes h ended same_window same_objects = record {
  same_window = same_window;
  same_objects = same_objects;
  calls =
      ap (λ x. w.reserved_tool_calls -ℤ r.reserved_tool_calls +ℤ x)
        (held-in_doubt r.state r.reserved_tool_calls h).0
      ∙ cancel _ _
      ∙ ap (λ x. w.reserved_tool_calls +ℤ x) (sym (ended (g r).reserved_tool_calls).0);
  bytes =
      ap (λ x. w.reserved_result_bytes -ℤ r.reserved_result_bytes +ℤ x)
        (held-in_doubt r.state r.reserved_result_bytes h).0
      ∙ cancel _ _
      ∙ ap (λ x. w.reserved_result_bytes +ℤ x) (sym (ended (g r).reserved_result_bytes).0);
  objects =
      ap (λ x. w.reserved_distinct_objects +ℤ x)
        (held-in_doubt r.state r.reserved_distinct_objects_max h).1
      ∙ ap (λ x. w.reserved_distinct_objects +ℤ x)
          (sym (ended (g r).reserved_distinct_objects_max).1);
}

-- The window consumes a reservation in doubt, found again by `exec_one`.
ended-IsBook :
    (id k : Uuid) (r : Schema.Reservation) (g : Schema.Reservation → Schema.Reservation)
    (calls bytes : ℤ) (db : Schema.Db) {rs : Table Schema.Reservation}
    → IsLedger db
    → find id db.reservations ≡ some r
    → k ≡ r.budget_window_id
    → IsEnded (g r).state
    → ((s : Schema.Reservation) → (g s).budget_window_id ≡ s.budget_window_id)
    → ((s : Schema.Reservation)
        → (g s).reserved_distinct_objects_max ≡ s.reserved_distinct_objects_max)
    → Schema.exec_one id (λ s. in_doubt s.state) g db.reservations ≡ ok rs
    → IsBook (modify k (consume r calls bytes) db.windows) rs db.debts db.contexts
ended-IsBook id k r g calls bytes db {rs} ledger there at_window ended same_window same_objects h =
    let (s, hs, live, e) = exec_one-ok id (λ s. in_doubt s.state) g db.reservations h in
    let (w, window) = ledger.window_there id r there in
    let doubt = subst (λ x. in_doubt x.state ≡ true) (same_row there hs) live in
    subst (λ t. IsBook (modify k (consume r calls bytes) db.windows) t db.debts db.contexts) (sym e)
      (subst
        (λ j.
          IsBook (modify j (consume r calls bytes) db.windows) (modify id g db.reservations)
            db.debts db.contexts)
        (sym at_window)
        (IsBook-move ledger id r w g (consume r calls bytes) there window
          (consume-IsShift r g w calls bytes doubt ended same_window same_objects) (λ u. refl)))

end_doubt-IsLedger :
    (now : Time) (id : Uuid) (worker : String) (answer : OwnerAnswer) (c : Schema.AdmissionContext)
    (r : Schema.Reservation) (db : Schema.Db) {db' : Schema.Db}
    → IsLedger db
    → find id db.contexts ≡ some c
    → find id db.reservations ≡ some r
    → end_doubt now id worker answer c r db ≡ ok db'
    → IsLedger db'
unfolding end_doubt
end_doubt-IsLedger now id worker answer c r db ledger context there h =
    let f = final answer in
    let g = end_reservation now f.reservation_state f.consumed_calls f.consumed_bytes in
    let upd = consume r f.consumed_calls f.consumed_bytes in
    bind-ok (Schema.update_window c.budget_window_id upd db) h (λ db1 hw h1.
      let e1 = update_window-ok c.budget_window_id upd db hw in
      bind-ok (Schema.exec_one c.equivalence_group_id is_blocking unblock_guard db1.guards) h1
        (λ gs hg h2.
          bind-ok
            (Schema.exec_one id (λ a. equals a.recovery_owner worker && is_unknown a.state)
              (end_attempt now f answer) db1.attempts)
            h2
            (λ ts ht h3.
              bind-ok (Schema.exec_one id (λ s. in_doubt s.state) g db1.reservations) h3
                (λ rs hs h4.
                  bind-ok (Schema.exec_one id claim_in_doubt complete_claim db1.claims) h4
                    (λ ks hk h5. subst IsLedger (ok-injective h5) (
                      subst (λ d. IsBook d.windows rs d.debts d.contexts) (sym e1)
                        (ended-IsBook id c.budget_window_id r g f.consumed_calls f.consumed_bytes db
                          ledger there (ledger.one_window id c r context there)
                          (final-IsEnded answer) (λ s. refl) (λ s. refl)
                          (subst
                            (λ d.
                              Schema.exec_one id (λ s. in_doubt s.state) g d.reservations ≡ ok rs)
                            e1 hs))))))))

settle_doubt-IsLedger :
    (now : Time) (id : Uuid) (worker : String) (answer : OwnerAnswer) (c : Schema.AdmissionContext)
    (db : Schema.Db) {db' : Schema.Db}
    → IsLedger db
    → find id db.contexts ≡ some c
    → settle_doubt now id worker answer c db ≡ ok db'
    → IsLedger db'
unfolding settle_doubt
settle_doubt-IsLedger now id worker answer c db ledger context h =
    bind-ok (Schema.row (find id db.reservations)) h (λ r hr h1.
      end_doubt-IsLedger now id worker answer c r db ledger context
        (row-ok (find id db.reservations) hr)
        (else-ok (ltb_ℤ (pos 0) r.reserved_distinct_objects_max) Schema.object_evidence_required _
          (else-ok (is_over r answer) Schema.cost_exceeds_reservation _
            (else-ok (not (in_doubt r.state)) Schema.reservation_not_unknown _ h1).1).1).1)

-- The answer of the owner keeps the ledger balanced, whatever it says.
pub apply_owner_evidence-IsLedger :
    (now : Time) (id : Uuid) (worker : String) (answer : OwnerAnswer) (db : Schema.Db)
    {db' : Schema.Db}
    → IsLedger db
    → apply_owner_evidence now id worker answer db ≡ ok db'
    → IsLedger db'
unfolding apply_owner_evidence
apply_owner_evidence-IsLedger now id worker answer db {db'} ledger h =
    bind-ok (Schema.row (find id db.contexts)) h (λ c hc h1.
      bind-ok (Schema.row (find id db.attempts)) h1 (λ a ha h0.
        bind-ok (Schema.text_column a.backend_request_id) h0 (λ backend hb h2.
          elim (Bool-cases (not (is_unknown a.state))) [
            | inl skip ↦ subst IsLedger (ok-injective (rw skip at h2)) ledger
            | inr live ↦
                let h3 =
                  (else-ok (is_foreign worker answer a backend) Schema.invalid_owner_evidence _
                    (rw live at h2)).1 in
                elim (Bool-cases (answer.outcome is "UNKNOWN")) [
                  | inl open_still ↦
                      bind-ok
                        (Schema.exec_one id
                          (λ b. equals b.recovery_owner worker && is_unknown b.state) unclaim
                          db.attempts)
                        (rw open_still at h3) (λ ts ht h4. subst IsLedger (ok-injective h4) ledger)
                  | inr ended ↦
                      settle_doubt-IsLedger now id worker answer c db ledger
                        (row-ok (find id db.contexts) hc) (rw ended at h3)
                ]
          ])))

forget_doubt-IsLedger :
    (now : Time) (id : Uuid) (c : Schema.AdmissionContext) (r : Schema.Reservation) (db : Schema.Db)
    {db' : Schema.Db}
    → IsLedger db
    → find id db.contexts ≡ some c
    → find id db.reservations ≡ some r
    → forget_doubt now id c r db ≡ ok db'
    → IsLedger db'
unfolding forget_doubt
forget_doubt-IsLedger now id c r db ledger context there h =
    let g = λ (s : Schema.Reservation).
      end_reservation now Schema.ReservationState.reconciled s.reserved_tool_calls
        s.reserved_result_bytes s in
    let upd = consume r r.reserved_tool_calls r.reserved_result_bytes in
    bind-ok (Schema.update_window c.budget_window_id upd db) h (λ db1 hw h1.
      let e1 = update_window-ok c.budget_window_id upd db hw in
      bind-ok (Schema.exec_one id (λ s. in_doubt s.state) g db1.reservations) h1 (λ rs hs h2.
        bind-ok (Schema.exec_one id claim_in_doubt complete_claim db1.claims) h2 (λ ks hk h3.
          bind-ok (Schema.exec_one id (λ b. is_unknown b.state) (hold_expired now) db1.attempts) h3
            (λ ts ht h4. subst IsLedger (ok-injective h4) (
              subst (λ d. IsBook d.windows rs d.debts d.contexts) (sym e1)
                (ended-IsBook id c.budget_window_id r g r.reserved_tool_calls
                  r.reserved_result_bytes db ledger there (ledger.one_window id c r context there)
                  (λ n. (refl, refl)) (λ s. refl) (λ s. refl)
                  (subst (λ d. Schema.exec_one id (λ s. in_doubt s.state) g d.reservations ≡ ok rs)
                    e1 hs)))))))

expire_hold-IsLedger :
    (now : Time) (id : Uuid) (db : Schema.Db) {db' : Schema.Db}
    → IsLedger db
    → expire_hold now id db ≡ ok db'
    → IsLedger db'
unfolding expire_hold
expire_hold-IsLedger now id db ledger h = bind-ok (Schema.row (find id db.contexts)) h (λ c hc h1.
    bind-ok (Schema.row (find id db.attempts)) h1 (λ a ha h2.
      elim (Bool-cases (not (is_unknown a.state))) [
        | inl skip ↦ subst IsLedger (ok-injective (rw skip at h2)) ledger
        | inr live ↦ bind-ok (Schema.row (find id db.reservations)) (rw live at h2) (λ r hr h3.
            forget_doubt-IsLedger now id c r db ledger (row-ok (find id db.contexts) hc)
              (row-ok (find id db.reservations) hr)
              (else-ok (not (in_doubt r.state)) Schema.reservation_not_unknown
                (forget_doubt now id c r db) h3).1)
      ]))

-- `ExpireUnknown` keeps the ledger balanced.
pub expire_unknown-IsLedger :
    (now unknown_before : Time) (limit : ℕ) (db : Schema.Db) {db' : Schema.Db}
    → IsLedger db
    → expire_unknown now unknown_before limit db ≡ ok db'
    → IsLedger db'
unfolding expire_unknown
expire_unknown-IsLedger now unknown_before limit db ledger h =
    each-IsLedger (expire_hold now) (λ id d d'. expire_hold-IsLedger now id d {db' = d'})
      (long_unknown limit now unknown_before db) db ledger h
