-- ===== src/Store/Reserve/Groups.antt =====
-- What `Store.Reserve` of internal/adapter/postgres/store.go guarantees to a retry group.
use ouf_mcp_server.Prelude.{
  ℕ, String, sym, refl, Option-cases, false, some, ◌≡◌, ap, ◌∙◌, inl, inr, ok, ||-false, ltb, arith,
  subst, true,
}
use ouf_mcp_server.Prelude.Int.{ℤ, pos, leb_ℤ, ltb_ℤ}
use ouf_mcp_server.Orchestration.Domain.{AdmissionRequest, AdmissionDecision, Time, Uuid}
use ouf_mcp_server.Store.Table.{find, search_row, find-put_self, IsKeyed}
use ouf_mcp_server.Store.Schema
use ouf_mcp_server.Store.Reserve.{FreshIds, is_window, ensure_window, attempt_id, reserve_once}
use ouf_mcp_server.Store.Reserve.Rows.{window_start, new_context}
use ouf_mcp_server.Store.Reserve.Admission.{
  IsCounted, IsGroupOf, admit_new-IsAdmitted, insert_attempt-ok, replay-same, reserve_once-ok,
}

-- The window of a reservation is the only row that may be new before the group is read.
ensure_window-keeps :
    (fresh : Uuid) (request : AdmissionRequest) (policy : String) (start : Time) (db : Schema.Db)
    → ((ensure_window fresh request policy start db).1.guards ≡ db.guards)
      × ((ensure_window fresh request policy start db).1.groups ≡ db.groups)
unfolding ensure_window
ensure_window-keeps fresh request policy start db =
    elim (Option-cases (search_row (is_window request policy start) db.windows)) [
      | inl e ↦ (rw (e, ensure_window) refl, rw (e, ensure_window) refl)
      | inr (r, e) ↦ (rw (e, ensure_window) refl, rw (e, ensure_window) refl)
    ]

free_of : (n : ℕ) → ltb 0 n ≡ false → n ≡ 0
free_of n h = ground arith

below : (m n : ℤ) → leb_ℤ m n ≡ false → ltb_ℤ n m ≡ true
below m n h = ground arith

-- A new admission added one to the attempts of the retry group of its window, capability and
-- fingerprint, whose guard has no blocking attempt, is not blocked and stays below the threshold,
-- where no key of a group stands twice; the context of the attempt names that group.
pub reserve_once-guarded :
    (now : Time) (fresh : FreshIds) (request : AdmissionRequest) (db : Schema.Db)
    {d : AdmissionDecision} {db' : Schema.Db}
    → IsKeyed db.groups
    → reserve_once now fresh request db ≡ ok (d, db')
    → d.replay ≡ false
    → (c : Schema.AdmissionContext) × (e : Schema.EquivalenceGroup) × (g : Schema.RetryGuard)
      × (find d.attempt_id db'.contexts ≡ some c)
      × (find c.equivalence_group_id db'.groups ≡ some e)
      × IsGroupOf request c.budget_window_id e
      × (find c.equivalence_group_id db'.guards ≡ some g)
      × IsCounted (find c.equivalence_group_id db.guards) g
      × (g.blocking_attempts ≡ 0)
      × (g.blocked ≡ false)
      × (ltb_ℤ (pos g.equivalent_attempts) request.retry_threshold ≡ true)
reserve_once-guarded now fresh request db {d} {db'} keyed h new =
    elim (reserve_once-ok now fresh request db h) [
      | inl (id, claim, found, again) ↦
          let (hash, named, same) = replay-same request id claim db again in
          cc (ap (λ x. x.replay) named, new)
      | inr (policy, window_maximum, budget, unclaimed, named, admit) ↦
          let id = attempt_id fresh request in
          let start = window_start now request in
          let admitted = admit_new-IsAdmitted now fresh id policy window_maximum request db admit in
          let window = ensure_window fresh.window request policy start db in
          let (guards, groups) = ensure_window-keeps fresh.window request policy start db in
          let (nonneg, e) =
            insert_attempt-ok now request id window.0 admitted.group
              (record window.1 { groups = admitted.groups; guards = admitted.guards })
              admitted.inserted in
          let c = new_context request window.0 admitted.group in
          let (group, there, own) = admitted.grouped (subst IsKeyed (sym groups) keyed) in
          let (unblocked, few) =
            ||-false admitted.guard.blocked
              (leb_ℤ request.retry_threshold (pos admitted.guard.equivalent_attempts))
              admitted.calm in
          (
            c,
            group,
            admitted.guard,
            ap (λ x. find x.attempt_id db'.contexts) named
                ∙ ap (λ x. find id x.contexts) e
                ∙ find-put_self id c window.1.contexts,
            ap (λ x. find admitted.group x.groups) e ∙ there,
            own,
            ap (λ x. find admitted.group x.guards) e ∙ admitted.counted,
            subst (λ t. IsCounted (find admitted.group t) admitted.guard) guards
                admitted.counted_once,
            free_of admitted.guard.blocking_attempts admitted.free,
            unblocked,
            below request.retry_threshold (pos admitted.guard.equivalent_attempts) few,
          )
    ]
