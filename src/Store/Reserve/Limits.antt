-- ===== src/Store/Reserve/Limits.antt =====
-- What `Store.Reserve` of internal/adapter/postgres/store.go guarantees to the budget of a window.
use ouf_mcp_server.Prelude.{
  String, true, false, ◌||◌, some, ◌≡◌, refl, sym, ap, ◌∙◌, subst, inl, inr, ok, Option-cases,
  ||-false, some-injective, is→≡, &&-true, ==_iff, ◌-◌, ◌%◌,
}
use ouf_mcp_server.Prelude.Int.{
  ℤ, pos, ◌+ℤ◌, ◌≤ℤ◌, pos_part, ltb_ℤ→ge, fits_64, wrap_64, wrap_64-fits, int_laws,
}
use ouf_mcp_server.Orchestration.Domain.{Cost, AdmissionRequest, AdmissionDecision, Time, Uuid}
use ouf_mcp_server.Orchestration.Budget.{admission_window_budget}
use ouf_mcp_server.Store.Table.{
  find, search_row, total, IsKeyed, search_row-some, find-modify_self, find-put_self, put-cases,
}
use ouf_mcp_server.Store.Schema
use ouf_mcp_server.Store.Reserve.{
  FreshIds, plus_64, is_window, ensure_window, debt_share, over_calls, over_bytes, over_objects,
  exceeds_budget, attempt_id, reserve_once,
}
use ouf_mcp_server.Store.Reserve.Rows.{window_start, empty_window, new_reservation, hold}
use ouf_mcp_server.Store.Reserve.Admission.{
  admit_new-IsAdmitted, insert_attempt-ok, replay-same, reserve_once-ok,
}

-- The sums that the check of a window forms are int64 values.
abbrev pub Fits : Cost → Schema.BudgetWindow → Type 0
Fits maximum w =
    (fits_64 (w.reserved_tool_calls +ℤ w.consumed_tool_calls) ≡ true)
    × (fits_64 (w.reserved_tool_calls +ℤ w.consumed_tool_calls +ℤ maximum.tool_calls) ≡ true)
    × (fits_64 (w.reserved_result_bytes +ℤ w.consumed_result_bytes) ≡ true)
    × (fits_64 (w.reserved_result_bytes +ℤ w.consumed_result_bytes +ℤ maximum.result_bytes) ≡ true)

plus_64-twice :
    (a b c : ℤ)
    → fits_64 (a +ℤ b) ≡ true
    → fits_64 (a +ℤ b +ℤ c) ≡ true
    → plus_64 (plus_64 a b) c ≡ a +ℤ b +ℤ c
plus_64-twice a b c h k =
    ap (λ x. wrap_64 (x +ℤ c)) (wrap_64-fits (a +ℤ b) h) ∙ wrap_64-fits (a +ℤ b +ℤ c) k

swap_last : (a b c m : ℤ) → a +ℤ b +ℤ c ≤ℤ m → a +ℤ c +ℤ b ≤ℤ m
swap_last a b c m h = omega (int_laws)

-- What a window has reserved and consumed is within the maximum, in calls and in bytes.
abbrev pub IsWithin : Cost → Schema.BudgetWindow → Type 0
IsWithin maximum w =
    (w.reserved_tool_calls +ℤ w.consumed_tool_calls ≤ℤ maximum.tool_calls)
    × (w.reserved_result_bytes +ℤ w.consumed_result_bytes ≤ℤ maximum.result_bytes)

zeros-fits : fits_64 (pos 0 +ℤ pos 0) ≡ true
unfolding ◌+ℤ◌
zeros-fits = refl

zeros_plus : (a : ℤ) → a ≡ pos 0 +ℤ pos 0 +ℤ a
zeros_plus a = omega int_laws

zero_plus-fits : (a : ℤ) → fits_64 a ≡ true → fits_64 (pos 0 +ℤ pos 0 +ℤ a) ≡ true
zero_plus-fits a h = subst (λ x. fits_64 x ≡ true) (zeros_plus a) h

held-IsWithin :
    (maximum window_maximum : Cost) (w : Schema.BudgetWindow) (debt : ℤ)
    → Fits maximum w
    → exceeds_budget maximum window_maximum w debt ≡ false
    → IsWithin window_maximum (hold maximum w)
unfolding exceeds_budget
held-IsWithin maximum window_maximum w debt (calls, more_calls, bytes, more_bytes) h =
    let (few, few_objects) =
      ||-false (over_calls maximum window_maximum w || over_bytes maximum window_maximum w)
        (over_objects maximum window_maximum w debt) h in
    let (few_calls, few_bytes) =
      ||-false (over_calls maximum window_maximum w) (over_bytes maximum window_maximum w) few in
    (
      swap_last w.reserved_tool_calls w.consumed_tool_calls maximum.tool_calls
          window_maximum.tool_calls
          (subst (λ x. x ≤ℤ window_maximum.tool_calls)
            (plus_64-twice w.reserved_tool_calls w.consumed_tool_calls maximum.tool_calls calls
              more_calls)
            (ltb_ℤ→ge window_maximum.tool_calls
              (plus_64 (plus_64 w.reserved_tool_calls w.consumed_tool_calls) maximum.tool_calls)
              few_calls)),
      swap_last w.reserved_result_bytes w.consumed_result_bytes maximum.result_bytes
          window_maximum.result_bytes
          (subst (λ x. x ≤ℤ window_maximum.result_bytes)
            (plus_64-twice w.reserved_result_bytes w.consumed_result_bytes maximum.result_bytes
              bytes more_bytes)
            (ltb_ℤ→ge window_maximum.result_bytes
              (plus_64 (plus_64 w.reserved_result_bytes w.consumed_result_bytes)
                maximum.result_bytes)
              few_bytes)),
    )

-- The window that a reservation uses is one that was there, or an empty one.
ensure_window-Fits :
    (fresh : Uuid) (request : AdmissionRequest) (policy : String) (start : Time) (db : Schema.Db)
    → ((k : Uuid) (w : Schema.BudgetWindow) → find k db.windows ≡ some w → Fits request.maximum w)
    → fits_64 request.maximum.tool_calls ≡ true
    → fits_64 request.maximum.result_bytes ≡ true
    → (k : Uuid) (w : Schema.BudgetWindow)
    → find k (ensure_window fresh request policy start db).1.windows ≡ some w
    → Fits request.maximum w
unfolding ensure_window
ensure_window-Fits fresh request policy start db fits calls bytes k w h =
    elim (Option-cases (search_row (is_window request policy start) db.windows)) [
      | inr (r, e) ↦ fits k w (rw (e, ensure_window) at h)
      | inl e ↦
          elim (put-cases fresh k (empty_window request policy start) db.windows
            (rw (e, ensure_window) at h)) [
              | inr (other, old) ↦ fits k w old
              | inl (here, same) ↦ subst (Fits request.maximum) (sym same) (
                zeros-fits,
                zero_plus-fits request.maximum.tool_calls calls,
                zeros-fits,
                zero_plus-fits request.maximum.result_bytes bytes,
              )
            ]
    ]

-- The window of the caller and the policy at this time.
abbrev pub IsWindowOf : AdmissionRequest → String → Time → Schema.BudgetWindow → Type 0
IsWindowOf request policy now w =
    (w.service_principal_id ≡ request.identity.service_principal_id)
    × (w.principal_id ≡ request.identity.principal_id)
    × (w.tenant_id ≡ request.identity.tenant_id)
    × (w.policy_ref ≡ policy)
    × (w.window_start ≡ now - now % pos_part request.window)

is_window-IsWindowOf :
    (request : AdmissionRequest) (policy : String) (now : Time) (w : Schema.BudgetWindow)
    → is_window request policy (window_start now request) w ≡ true
    → IsWindowOf request policy now w
unfolding is_window
is_window-IsWindowOf request policy now w h =
    let (abcd, e) = &&-true _ _ h in
    let (abc, d) = &&-true _ _ abcd in
    let (ab, c) = &&-true _ _ abc in
    let (a, b) = &&-true _ _ ab in
    (is→≡ _ _ a, is→≡ _ _ b, is→≡ _ _ c, is→≡ _ _ d, (==_iff _ _).0 e)

ensure_window-IsWindowOf :
    (fresh : Uuid) (request : AdmissionRequest) (policy : String) (now : Time) (db : Schema.Db)
    {w : Schema.BudgetWindow}
    → IsKeyed db.windows
    → find
        (ensure_window fresh request policy (window_start now request) db).0
        (ensure_window fresh request policy (window_start now request) db).1.windows
      ≡ some w
    → IsWindowOf request policy now w
unfolding ensure_window
ensure_window-IsWindowOf fresh request policy now db {w} keyed h =
    let start = window_start now request in
    elim (Option-cases (search_row (is_window request policy start) db.windows)) [
      | inl e ↦
          let new = empty_window request policy start in
          subst (IsWindowOf request policy now)
            (some-injective
              (sym (find-put_self fresh new db.windows) ∙ (rw (e, ensure_window) at h)))
            (refl, refl, refl, refl, refl)
      | inr ((k, v), e) ↦
          let (there, passes) =
            search_row-some (is_window request policy start) db.windows keyed e in
          subst (IsWindowOf request policy now)
            (some-injective (sym there ∙ (rw (e, ensure_window) at h)))
            (is_window-IsWindowOf request policy now v passes)
    ]

-- A new admission reserves what the request may cost in the window of the caller, of the policy
-- and of the time, and leaves that window within the maximum of the budget of the request, in
-- calls and in bytes, where the sums that the check of a window forms are int64 values and no key
-- of a window stands twice.
pub reserve_once-IsWithin :
    (now : Time) (fresh : FreshIds) (request : AdmissionRequest) (db : Schema.Db)
    {d : AdmissionDecision} {db' : Schema.Db}
    → IsKeyed db.windows
    → ((k : Uuid) (w : Schema.BudgetWindow) → find k db.windows ≡ some w → Fits request.maximum w)
    → fits_64 request.maximum.tool_calls ≡ true
    → fits_64 request.maximum.result_bytes ≡ true
    → reserve_once now fresh request db ≡ ok (d, db')
    → d.replay ≡ false
    → (policy : String) × (window_maximum : Cost) × (r : Schema.Reservation)
      × (w : Schema.BudgetWindow) × (admission_window_budget request ≡ ok (policy, window_maximum))
      × (find d.attempt_id db'.reservations ≡ some r)
      × (r.reserved_tool_calls ≡ request.maximum.tool_calls)
      × (r.reserved_result_bytes ≡ request.maximum.result_bytes)
      × (find r.budget_window_id db'.windows ≡ some w)
      × IsWindowOf request policy now w
      × IsWithin window_maximum w
reserve_once-IsWithin now fresh request db {d} {db'} keyed fits calls bytes h new =
    elim (reserve_once-ok now fresh request db h) [
      | inl (id, claim, found, again) ↦
          let (hash, named, same) = replay-same request id claim db again in
          cc (ap (λ x. x.replay) named, new)
      | inr (policy, window_maximum, budget, unclaimed, named, admit) ↦
          let id = attempt_id fresh request in
          let admitted = admit_new-IsAdmitted now fresh id policy window_maximum request db admit in
          let window = ensure_window fresh.window request policy (window_start now request) db in
          let (nonneg, e) =
            insert_attempt-ok now request id window.0 admitted.group
              (record window.1 { groups = admitted.groups; guards = admitted.guards })
              admitted.inserted in
          let r = new_reservation request.maximum window.0 in
          (
            policy,
            window_maximum,
            r,
            hold request.maximum admitted.window_row,
            budget,
            ap (λ x. find x.attempt_id db'.reservations) named
                ∙ ap (λ x. find id x.reservations) e
                ∙ find-put_self id r window.1.reservations,
            refl,
            refl,
            ap (λ x. find window.0 x.windows) e
                ∙ find-modify_self window.0 (hold request.maximum) window.1.windows admitted.there,
            ensure_window-IsWindowOf fresh.window request policy now db keyed admitted.there,
            held-IsWithin request.maximum window_maximum admitted.window_row
                (total (debt_share window.0) window.1.debts)
                (ensure_window-Fits fresh.window request policy (window_start now request) db fits
                  calls bytes window.0 admitted.window_row admitted.there)
                admitted.within,
          )
    ]
