-- ===== src/Store/Ledger/Moves.antt =====
-- The ways in which the transactions change the ledger, each of which keeps it balanced.
use ouf_mcp_server.Prelude.{some, ◌≡◌, sym, ap, ◌∙◌, subst, inl, inr}
use ouf_mcp_server.Prelude.Int.{pos, ◌+ℤ◌, ◌≤ℤ◌}
use ouf_mcp_server.Orchestration.Domain.{Uuid}
use ouf_mcp_server.Store.Table.{Table, find, modify, put, find-modify-some, find-modify_exists}
use ouf_mcp_server.Store.Schema
use ouf_mcp_server.Store.Ledger.{held, certain, owed, reservation_window, debt_window, IsBook}
use ouf_mcp_server.Store.Ledger.Columns.{
  IsBalanced, IsBalanced-move, IsBalanced-keep, IsBalanced-put,
}

-- A reservation becomes `g r`, and its window moves by the difference of what they hold.
pub record IsShift (r : Schema.Reservation) (g : Schema.Reservation → Schema.Reservation)
    (w : Schema.BudgetWindow) (upd : Schema.BudgetWindow → Schema.BudgetWindow) : Type 0 where
  pub same_window : (s : Schema.Reservation) → (g s).budget_window_id ≡ s.budget_window_id
  pub same_objects :
      (s : Schema.Reservation)
      → (g s).reserved_distinct_objects_max ≡ s.reserved_distinct_objects_max
  pub calls :
      (upd w).reserved_tool_calls +ℤ held r.state r.reserved_tool_calls
      ≡ w.reserved_tool_calls +ℤ held (g r).state (g r).reserved_tool_calls
  pub bytes :
      (upd w).reserved_result_bytes +ℤ held r.state r.reserved_result_bytes
      ≡ w.reserved_result_bytes +ℤ held (g r).state (g r).reserved_result_bytes
  pub objects :
      (upd w).reserved_distinct_objects +ℤ certain r.state r.reserved_distinct_objects_max
      ≡ w.reserved_distinct_objects +ℤ certain (g r).state (g r).reserved_distinct_objects_max

-- No update of a window by `upd` changes its debt.
abbrev pub KeepsDebt : (Schema.BudgetWindow → Schema.BudgetWindow) → Type 0
KeepsDebt upd =
    (u : Schema.BudgetWindow)
    → (upd u).current_unresolved_object_debt_total ≡ u.current_unresolved_object_debt_total

module _ {ws : Table Schema.BudgetWindow} {rs : Table Schema.Reservation}
    {ds : Table Schema.ObjectDebt} {cs : Table Schema.AdmissionContext}
    (book : IsBook ws rs ds cs) where
  kept-one_window :
      (id : Uuid) (g : Schema.Reservation → Schema.Reservation)
      → ((s : Schema.Reservation) → (g s).budget_window_id ≡ s.budget_window_id)
      → (j : Uuid) (c : Schema.AdmissionContext) (r : Schema.Reservation) → find j cs ≡ some c
      → find j (modify id g rs) ≡ some r
      → c.budget_window_id ≡ r.budget_window_id
  kept-one_window id g same j c r hc hr =
      let (s, there, which) = find-modify-some id j g rs hr in
      book.one_window j c s hc there ∙ elim which [
        | inl e ↦ ap reservation_window (sym e)
        | inr e ↦ sym (same s) ∙ ap reservation_window (sym e)
      ]

  kept-window_there :
      (id k : Uuid) (g : Schema.Reservation → Schema.Reservation)
      (upd : Schema.BudgetWindow → Schema.BudgetWindow)
      → ((s : Schema.Reservation) → (g s).budget_window_id ≡ s.budget_window_id)
      → (j : Uuid) (r : Schema.Reservation) → find j (modify id g rs) ≡ some r
      → (w : Schema.BudgetWindow) × (find r.budget_window_id (modify k upd ws) ≡ some w)
  kept-window_there id k g upd same j r hr =
      let (s, there, which) = find-modify-some id j g rs hr in
      let (w, found) = book.window_there j s there in
      let e : s.budget_window_id ≡ r.budget_window_id = elim which [
        | inl e ↦ ap reservation_window (sym e)
        | inr e ↦ sym (same s) ∙ ap reservation_window (sym e)
      ] in
      find-modify_exists k r.budget_window_id upd ws (subst (λ i. find i ws ≡ some w) e found)

  kept-objects_nonneg :
      (id : Uuid) (g : Schema.Reservation → Schema.Reservation)
      → ((s : Schema.Reservation)
          → (g s).reserved_distinct_objects_max ≡ s.reserved_distinct_objects_max)
      → (j : Uuid) (r : Schema.Reservation) → find j (modify id g rs) ≡ some r
      → pos 0 ≤ℤ r.reserved_distinct_objects_max
  kept-objects_nonneg id g same j r hr =
      let (s, there, which) = find-modify-some id j g rs hr in
      let e : s.reserved_distinct_objects_max ≡ r.reserved_distinct_objects_max = elim which [
        | inl e ↦ ap (λ x. x.reserved_distinct_objects_max) (sym e)
        | inr e ↦ sym (same s) ∙ ap (λ x. x.reserved_distinct_objects_max) (sym e)
      ] in
      subst (λ x. pos 0 ≤ℤ x) e (book.objects_nonneg j s there)

  pub calls-move :
      (id : Uuid) (r : Schema.Reservation) (w : Schema.BudgetWindow)
      (g : Schema.Reservation → Schema.Reservation)
      (upd : Schema.BudgetWindow → Schema.BudgetWindow)
      → find id rs ≡ some r
      → find r.budget_window_id ws ≡ some w
      → IsShift r g w upd
      → IsBalanced reservation_window
          (λ s. held s.state s.reserved_tool_calls)
          (λ u. u.reserved_tool_calls)
          (modify r.budget_window_id upd ws)
          (modify id g rs)
  calls-move id r w g upd there window move =
      IsBalanced-move reservation_window (λ s. held s.state s.reserved_tool_calls)
        (λ u. u.reserved_tool_calls) ws rs id r w upd g book.calls there window (move.same_window r)
        move.calls

  pub bytes-move :
      (id : Uuid) (r : Schema.Reservation) (w : Schema.BudgetWindow)
      (g : Schema.Reservation → Schema.Reservation)
      (upd : Schema.BudgetWindow → Schema.BudgetWindow)
      → find id rs ≡ some r
      → find r.budget_window_id ws ≡ some w
      → IsShift r g w upd
      → IsBalanced reservation_window
          (λ s. held s.state s.reserved_result_bytes)
          (λ u. u.reserved_result_bytes)
          (modify r.budget_window_id upd ws)
          (modify id g rs)
  bytes-move id r w g upd there window move =
      IsBalanced-move reservation_window (λ s. held s.state s.reserved_result_bytes)
        (λ u. u.reserved_result_bytes) ws rs id r w upd g book.bytes there window
        (move.same_window r) move.bytes

  pub objects-move :
      (id : Uuid) (r : Schema.Reservation) (w : Schema.BudgetWindow)
      (g : Schema.Reservation → Schema.Reservation)
      (upd : Schema.BudgetWindow → Schema.BudgetWindow)
      → find id rs ≡ some r
      → find r.budget_window_id ws ≡ some w
      → IsShift r g w upd
      → IsBalanced reservation_window
          (λ s. certain s.state s.reserved_distinct_objects_max)
          (λ u. u.reserved_distinct_objects)
          (modify r.budget_window_id upd ws)
          (modify id g rs)
  objects-move id r w g upd there window move =
      IsBalanced-move reservation_window (λ s. certain s.state s.reserved_distinct_objects_max)
        (λ u. u.reserved_distinct_objects) ws rs id r w upd g book.objects there window
        (move.same_window r) move.objects

  pub IsBook-move :
      (id : Uuid) (r : Schema.Reservation) (w : Schema.BudgetWindow)
      (g : Schema.Reservation → Schema.Reservation)
      (upd : Schema.BudgetWindow → Schema.BudgetWindow)
      → find id rs ≡ some r
      → find r.budget_window_id ws ≡ some w
      → IsShift r g w upd
      → KeepsDebt upd
      → IsBook (modify r.budget_window_id upd ws) (modify id g rs) ds cs
  IsBook-move id r w g upd there window move keeps = record {
    calls = calls-move id r w g upd there window move;
    bytes = bytes-move id r w g upd there window move;
    objects = objects-move id r w g upd there window move;
    debt =
        IsBalanced-keep debt_window (λ d. owed d.state d.debt_amount)
          (λ u. u.current_unresolved_object_debt_total) ws ds r.budget_window_id upd book.debt
          (λ u h. keeps u);
    one_window = kept-one_window id g move.same_window;
    window_there = kept-window_there id r.budget_window_id g upd move.same_window;
    objects_nonneg = kept-objects_nonneg id g move.same_objects;
  }

  -- A doubt begins: the reservation keeps its calls and bytes, and its objects become the debt `d`.
  pub IsBook-doubt :
      (id : Uuid) (r : Schema.Reservation) (w : Schema.BudgetWindow) (d : Schema.ObjectDebt)
      (g : Schema.Reservation → Schema.Reservation)
      (upd : Schema.BudgetWindow → Schema.BudgetWindow)
      → find id rs ≡ some r
      → find r.budget_window_id ws ≡ some w
      → d.budget_window_id ≡ r.budget_window_id
      → IsShift r g w upd
      → (upd w).current_unresolved_object_debt_total
        ≡ w.current_unresolved_object_debt_total +ℤ owed d.state d.debt_amount
      → IsBook (modify r.budget_window_id upd ws) (modify id g rs) (put id d ds) cs
  IsBook-doubt id r w d g upd there window at_window move grows = record {
    calls = calls-move id r w g upd there window move;
    bytes = bytes-move id r w g upd there window move;
    objects = objects-move id r w g upd there window move;
    debt =
        subst
          (λ j.
            IsBalanced debt_window (λ d. owed d.state d.debt_amount)
              (λ u. u.current_unresolved_object_debt_total) (modify j upd ws) (put id d ds))
          at_window
          (IsBalanced-put debt_window (λ d. owed d.state d.debt_amount)
            (λ u. u.current_unresolved_object_debt_total) ws ds id d w upd book.debt
            (subst (λ j. find j ws ≡ some w) (sym at_window) window) grows);
    one_window = kept-one_window id g move.same_window;
    window_there = kept-window_there id r.budget_window_id g upd move.same_window;
    objects_nonneg = kept-objects_nonneg id g move.same_objects;
  }
