-- ===== src/Store/Ledger/Attempts.antt =====
-- `MarkRunning` and `Reconcile` keep the ledger.
use ouf_mcp_server.Prelude.{
  ℕ, String, true, false, some, ◌≡◌, refl, sym, ap, ◌∙◌, subst, ◌⊎◌, inl, inr, arith, ok,
  bind-ok_parts, else-ok, ok-injective, Bool-cases, ◌&&◌, ◌==◌,
}
use ouf_mcp_server.Prelude.Int.{ℤ, pos, ◌+ℤ◌, ◌-ℤ◌, int_laws}
use ouf_mcp_server.Orchestration.Domain.{Cost, AttemptOutcome, Time, Duration, Uuid}
use ouf_mcp_server.Store.Table.{find, modify}
use ouf_mcp_server.Store.Schema
use ouf_mcp_server.Store.Schema.Rows.{row-ok, update_window-ok}
use ouf_mcp_server.Store.Attempt.{
  is_reconciled, settle, reconcile_reservation, complete_attempt, is_admitted, is_not_dispatched,
  reconcile, mark_running,
}
use ouf_mcp_server.Store.Recovery.{is_reserved}
use ouf_mcp_server.Store.Ledger.{held, certain, IsLedger}
use ouf_mcp_server.Store.Ledger.Moves.{IsShift, IsBook-move}

pub held-reserved :
    (s : Schema.ReservationState) (n : ℤ)
    → is_reserved s ≡ true
    → (held s n ≡ n) × (certain s n ≡ n)
held-reserved s n h = ground arith

pub cancel : (a b : ℤ) → a -ℤ b +ℤ b ≡ a +ℤ pos 0
cancel a b = omega int_laws

settle-IsShift :
    (now : Time) (r : Schema.Reservation) (actual : Cost) (w : Schema.BudgetWindow)
    → is_reserved r.state ≡ true
    → IsShift r (reconcile_reservation now actual) w (settle r actual)
settle-IsShift now r actual w h = record {
  same_window = λ s. refl;
  same_objects = λ s. refl;
  calls =
      ap (λ x. w.reserved_tool_calls -ℤ r.reserved_tool_calls +ℤ x)
        (held-reserved r.state r.reserved_tool_calls h).0
      ∙ cancel _ _;
  bytes =
      ap (λ x. w.reserved_result_bytes -ℤ r.reserved_result_bytes +ℤ x)
        (held-reserved r.state r.reserved_result_bytes h).0
      ∙ cancel _ _;
  objects =
      ap (λ x. w.reserved_distinct_objects -ℤ r.reserved_distinct_objects_max +ℤ x)
        (held-reserved r.state r.reserved_distinct_objects_max h).1
      ∙ cancel _ _;
}

-- A reservation that `Reconcile` may find: held, or settled before.
abbrev pub IsSettleable : Schema.ReservationState → Type 0
IsSettleable s = (is_reserved s ≡ true) ⊎ (is_reconciled s ≡ true)

still_held :
    (s : Schema.ReservationState) → is_reconciled s ≡ false → IsSettleable s → is_reserved s ≡ true
still_held s h (inl held_now) = held_now
still_held s h (inr done) = cc

-- `Reconcile` keeps the ledger balanced where the reservation of the attempt is held or settled.
pub reconcile-IsLedger :
    (now : Time) (id : Uuid) (actual : Cost) (outcome : AttemptOutcome) (db : Schema.Db)
    {db' : Schema.Db}
    → IsLedger db
    → ((r : Schema.Reservation) → find id db.reservations ≡ some r → IsSettleable r.state)
    → reconcile now id actual outcome db ≡ ok db'
    → IsLedger db'
unfolding reconcile
reconcile-IsLedger now id actual outcome db ledger settleable h =
    let (r, hr, h1) = bind-ok_parts (Schema.row (find id db.reservations)) _ h in
    let there = row-ok (find id db.reservations) hr in
    elim (Bool-cases (is_reconciled r.state)) [
      | inl done ↦ subst IsLedger (ok-injective (rw done at h1)) ledger
      | inr live ↦
          let (fits, h2) = else-ok _ _ _ (rw live at h1) in
          let (db1, hw, h3) =
            bind-ok_parts (Schema.update_window r.budget_window_id (settle r actual) db) _ h2 in
          let (w, window) = ledger.window_there id r there in
          let held_now : is_reserved r.state ≡ true =
            still_held r.state live (settleable r there) in
          subst IsLedger (ok-injective h3) (
            subst
              (λ d. IsLedger (record d {
                reservations = modify id (reconcile_reservation now actual) d.reservations;
                attempts = modify id (complete_attempt now outcome) d.attempts;
              }))
              (sym (update_window-ok r.budget_window_id (settle r actual) db hw))
              (IsBook-move ledger id r w (reconcile_reservation now actual) (settle r actual) there
                window (settle-IsShift now r actual w held_now) (λ u. refl)))
    ]

-- `MarkRunning` changes no amount.
pub mark_running-IsLedger :
    (now : Time) (id : Uuid) (backend : String) (lease : Duration) (expected : ℕ) (db : Schema.Db)
    {db' : Schema.Db}
    → IsLedger db
    → mark_running now id backend lease expected db ≡ ok db'
    → IsLedger db'
unfolding mark_running
mark_running-IsLedger now id backend lease expected db ledger h =
    let (a, ha, h1) = bind-ok_parts (Schema.row (find id db.attempts)) _ h in
    elim (Bool-cases
      (is_admitted a.state && is_not_dispatched a.dispatch_state && a.lock_version == expected)) [
        | inl e ↦ subst IsLedger (ok-injective (rw e at h1)) ledger
        | inr e ↦ cc (rw e at h1)
      ]
