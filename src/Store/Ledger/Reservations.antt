-- ===== src/Store/Ledger/Reservations.antt =====
-- `Store.Reserve` keeps the ledger.
use ouf_mcp_server.Prelude.{
  String, ◌==◌, none, some, ◌≡◌, refl, sym, ap, ◌∙◌, subst, inl, inr, ok, Bool-cases, Option-cases,
  if◌then◌else◌,
}
use ouf_mcp_server.Prelude.Int.{pos, ◌≤ℤ◌, ltb_ℤ→ge}
use ouf_mcp_server.Orchestration.Domain.{Cost, AdmissionRequest, AdmissionDecision, Time, Uuid}
use ouf_mcp_server.Store.Table.{
  Table, find, modify, put, search_row, find-put, put-cases, find-modify_exists,
}
use ouf_mcp_server.Store.Schema
use ouf_mcp_server.Store.Reserve.{FreshIds, is_window, ensure_window, reserve_once}
use ouf_mcp_server.Store.Reserve.Rows.{
  window_start, empty_window, new_context, new_reservation, hold,
}
use ouf_mcp_server.Store.Reserve.Admission.{
  IsAdmitted, admit_new-IsAdmitted, insert_attempt-ok, replay-same, reserve_once-ok,
}
use ouf_mcp_server.Store.Ledger.{
  held, certain, owed, reservation_window, debt_window, IsBook, IsLedger,
}
use ouf_mcp_server.Store.Ledger.Columns.{IsBalanced-put, IsBalanced-keep, IsBalanced-open}

module _ {ws : Table Schema.BudgetWindow} {rs : Table Schema.Reservation}
    {ds : Table Schema.ObjectDebt} {cs : Table Schema.AdmissionContext}
    (book : IsBook ws rs ds cs) where
  -- An empty window is opened.
  IsBook-open :
      (k : Uuid) (w : Schema.BudgetWindow)
      → find k ws ≡ none
      → w.reserved_tool_calls ≡ pos 0
      → w.reserved_result_bytes ≡ pos 0
      → w.reserved_distinct_objects ≡ pos 0
      → w.current_unresolved_object_debt_total ≡ pos 0
      → IsBook (put k w ws) rs ds cs
  IsBook-open k w absent no_calls no_bytes no_objects no_debt = record {
    calls =
        IsBalanced-open reservation_window (λ r. held r.state r.reserved_tool_calls)
          (λ w. w.reserved_tool_calls) ws rs k w book.calls absent no_calls;
    bytes =
        IsBalanced-open reservation_window (λ r. held r.state r.reserved_result_bytes)
          (λ w. w.reserved_result_bytes) ws rs k w book.bytes absent no_bytes;
    objects =
        IsBalanced-open reservation_window (λ r. certain r.state r.reserved_distinct_objects_max)
          (λ w. w.reserved_distinct_objects) ws rs k w book.objects absent no_objects;
    debt =
        IsBalanced-open debt_window (λ d. owed d.state d.debt_amount)
          (λ w. w.current_unresolved_object_debt_total) ws ds k w book.debt absent no_debt;
    one_window = book.one_window;
    window_there = λ id r there. opened k w r.budget_window_id (book.window_there id r there);
    objects_nonneg = book.objects_nonneg;
  }
    where
      opened :
          (k : Uuid) (w : Schema.BudgetWindow) (j : Uuid)
          → (v : Schema.BudgetWindow) × (find j ws ≡ some v)
          → (v : Schema.BudgetWindow) × (find j (put k w ws) ≡ some v)
      opened k w j (v, there) = elim (Bool-cases (k == j)) [
        | inl e ↦ (w, find-put k j w ws ∙ ap (λ b. if b then some w else find j ws) e)
        | inr e ↦ (v, find-put k j w ws ∙ ap (λ b. if b then some w else find j ws) e ∙ there)
      ]

  -- A reservation is inserted with its context, and its window holds it.
  IsBook-reserve :
      (id k group : Uuid) (request : AdmissionRequest) (w : Schema.BudgetWindow)
      → find k ws ≡ some w
      → pos 0 ≤ℤ request.maximum.distinct_objects
      → IsBook
          (modify k (hold request.maximum) ws)
          (put id (new_reservation request.maximum k) rs)
          ds
          (put id (new_context request k group) cs)
  IsBook-reserve id k group request w window nonneg =
      let upd = hold request.maximum in
      let new = new_reservation request.maximum k in
      record {
        calls =
            IsBalanced-put reservation_window (λ r. held r.state r.reserved_tool_calls)
              (λ w. w.reserved_tool_calls) ws rs id new w upd book.calls window refl;
        bytes =
            IsBalanced-put reservation_window (λ r. held r.state r.reserved_result_bytes)
              (λ w. w.reserved_result_bytes) ws rs id new w upd book.bytes window refl;
        objects =
            IsBalanced-put reservation_window (λ r. certain r.state r.reserved_distinct_objects_max)
              (λ w. w.reserved_distinct_objects) ws rs id new w upd book.objects window refl;
        debt =
            IsBalanced-keep debt_window (λ d. owed d.state d.debt_amount)
              (λ w. w.current_unresolved_object_debt_total) ws ds k upd book.debt (λ u h. refl);
        one_window = one id k group request;
        window_there = λ j r there. elim (put-cases id j new rs there) [
          | inl (e, same) ↦
              subst
                (λ x.
                  (v : Schema.BudgetWindow) × (find x.budget_window_id (modify k upd ws) ≡ some v))
                (sym same) (find-modify_exists k k upd ws window)
          | inr (e, old) ↦
              let (v, found) = book.window_there j r old in
              find-modify_exists k r.budget_window_id upd ws found
        ];
        objects_nonneg = λ j r there. elim (put-cases id j new rs there) [
          | inl (e, same) ↦ subst (λ x. pos 0 ≤ℤ x.reserved_distinct_objects_max) (sym same) nonneg
          | inr (e, old) ↦ book.objects_nonneg j r old
        ];
      }
    where
      one :
          (id k group : Uuid) (request : AdmissionRequest) (j : Uuid) (c : Schema.AdmissionContext)
          (r : Schema.Reservation)
          → find j (put id (new_context request k group) cs) ≡ some c
          → find j (put id (new_reservation request.maximum k) rs) ≡ some r
          → c.budget_window_id ≡ r.budget_window_id
      one id k group request j c r hc hr =
          elim (put-cases id j (new_context request k group) cs hc) [
            | inl (e, same) ↦ elim (put-cases id j (new_reservation request.maximum k) rs hr) [
              | inl (e', same') ↦
                  ap (λ x. x.budget_window_id) same ∙ sym (ap (λ x. x.budget_window_id) same')
              | inr (e', old') ↦ cc
            ]
            | inr (e, old) ↦ elim (put-cases id j (new_reservation request.maximum k) rs hr) [
              | inl (e', same') ↦ cc
              | inr (e', old') ↦ book.one_window j c r old old'
            ]
          ]

ensure_window-IsLedger :
    (fresh : Uuid) (request : AdmissionRequest) (policy : String) (start : Time) (db : Schema.Db)
    → IsLedger db
    → find fresh db.windows ≡ none
    → IsLedger (ensure_window fresh request policy start db).1
unfolding ensure_window
ensure_window-IsLedger fresh request policy start db ledger absent =
    elim (Option-cases (search_row (is_window request policy start) db.windows)) [
      | inl e ↦
          rw (e, ensure_window)
            (IsBook-open ledger fresh (empty_window request policy start) absent refl refl refl
              refl)
      | inr (r, e) ↦ rw (e, ensure_window) ledger
    ]

admitted-IsLedger :
    (now : Time) (window id : Uuid) (window_maximum : Cost) (request : AdmissionRequest)
    (db db' : Schema.Db)
    → IsLedger db
    → IsAdmitted now window id window_maximum request db db'
    → IsLedger db'
admitted-IsLedger now window id window_maximum request db db' ledger admitted =
    let (nonneg, e) =
      insert_attempt-ok now request id window admitted.group
        (record db { groups = admitted.groups; guards = admitted.guards }) admitted.inserted in
    subst IsLedger (sym e) (
      IsBook-reserve ledger id window admitted.group request admitted.window_row admitted.there
        (ltb_ℤ→ge request.maximum.distinct_objects (pos 0) nonneg))

-- A reservation keeps the ledger balanced, where the id that a new window takes is new.
pub reserve_once-IsLedger :
    (now : Time) (fresh : FreshIds) (request : AdmissionRequest) (db : Schema.Db)
    {d : AdmissionDecision} {db' : Schema.Db}
    → IsLedger db
    → find fresh.window db.windows ≡ none
    → reserve_once now fresh request db ≡ ok (d, db')
    → IsLedger db'
reserve_once-IsLedger now fresh request db {d} {db'} ledger absent h =
    elim (reserve_once-ok now fresh request db h) [
      | inl (id, claim, found, again) ↦
          let (hash, named, same) = replay-same request id claim db again in
          subst IsLedger (sym same) ledger
      | inr (policy, window_maximum, budget, unclaimed, named, new) ↦
          admitted-IsLedger now
            (ensure_window fresh.window request policy (window_start now request) db).0 _
            window_maximum request _ db'
            (ensure_window-IsLedger fresh.window request policy (window_start now request) db ledger
              absent)
            (admit_new-IsAdmitted now fresh _ policy window_maximum request db new)
    ]
