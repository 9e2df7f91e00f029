-- ===== src/Store/Reserve/Admission.antt =====
-- What an admission that succeeded has read, passed and written.
use ouf_mcp_server.Prelude.{
  Option, suc, subst, &&-true, ==_iff, is→≡, String, true, false, ◌||◌, none, some, ◌≡◌, refl, sym,
  ap, ◌∙◌, inl, inr, ltb, is_some, Result, ok, err, ◌⊎◌, bind-ok, else-ok, ok-injective,
  Option-cases, ◌differs◌,
}
use ouf_mcp_server.Prelude.Int.{pos, ltb_ℤ, leb_ℤ}
use ouf_mcp_server.Orchestration.Domain.{Cost, AdmissionRequest, AdmissionDecision, Time, Uuid}
use ouf_mcp_server.Orchestration.Budget.{admission_window_budget}
use ouf_mcp_server.Store.Table.{
  Table, find, IsKeyed, search_row-some, modify, put, search_row, total, find-put_self,
  find-modify_self,
}
use ouf_mcp_server.Store.Schema
use ouf_mcp_server.Store.Schema.Rows.{row-ok, update_window-ok}
use ouf_mcp_server.Store.Reserve.{
  FreshIds, claims_request, ensure_window, ensure_group, count_attempt, is_group, debt_share,
  exceeds_budget, guarded, insert_attempt, admit_new, attempt_id, reserve_once, or_unsupported,
  same_key, replay, outcome_unknown,
}
use ouf_mcp_server.Store.Reserve.Rows.{
  window_start, first_guard, new_attempt, new_claim, new_context, new_reservation, hold,
}

-- The guard lets an admission pass only while no attempt blocks the group and the group has
-- fewer equivalent attempts than the threshold.
pub guarded-ok :
    (request : AdmissionRequest) (g : Schema.RetryGuard) (admit : Schema.Tx) {db' : Schema.Db}
    → guarded request g admit ≡ ok db'
    → (ltb 0 g.blocking_attempts ≡ false)
      × ((g.blocked || leb_ℤ request.retry_threshold (pos g.equivalent_attempts)) ≡ false)
      × (admit ≡ ok db')
unfolding guarded
guarded-ok request g admit h =
    let (free, h1) = else-ok (ltb 0 g.blocking_attempts) Schema.group_locked _ h in
    let (calm, h2) =
      else-ok (g.blocked || leb_ℤ request.retry_threshold (pos g.equivalent_attempts))
        Schema.tool_selection_stall admit h1 in
    (free, calm, h2)

-- The group and its guard leave the windows and the rows of the attempts alone.
pub ensure_group-keeps {ℓ} :
    (P : Schema.Db → Type ℓ) (fresh : Uuid) (request : AdmissionRequest) (window : Uuid)
    (db : Schema.Db)
    → ((t : Table Schema.EquivalenceGroup) → P (record db { groups = t }))
    → P (ensure_group fresh request window db).1
unfolding ensure_group
ensure_group-keeps P fresh request window db p =
    elim (Option-cases (search_row (is_group request window) db.groups)) [
      | inl e ↦ rw (e, ensure_group) (p _)
      | inr (r, e) ↦ rw (e, ensure_group) (p db.groups)
    ]

pub count_attempt-keeps {ℓ} :
    (P : Schema.Db → Type ℓ) (group : Uuid) (db : Schema.Db)
    → ((t : Table Schema.RetryGuard) → P (record db { guards = t }))
    → P (count_attempt group db).1
unfolding count_attempt
count_attempt-keeps P group db p = elim (Option-cases (find group db.guards)) [
  | inl e ↦ rw (e, count_attempt) (p _)
  | inr (r, e) ↦ rw (e, count_attempt) (p _)
]

-- The guard that the count returns is the row that it leaves.
count_attempt-find :
    (group : Uuid) (db : Schema.Db)
    → find group (count_attempt group db).1.guards ≡ some (count_attempt group db).0
unfolding count_attempt
count_attempt-find group db = elim (Option-cases (find group db.guards)) [
  | inl e ↦ rw (e, count_attempt) (find-put_self group first_guard db.guards)
  | inr (g, e) ↦ rw (e, count_attempt) (find-modify_self group _ db.guards e)
]

-- The count of a guard after an attempt, from what it was before.
abbrev pub IsCounted : Option Schema.RetryGuard → Schema.RetryGuard → Type 0
IsCounted none g = g.equivalent_attempts ≡ 1
IsCounted (some old) g = g.equivalent_attempts ≡ suc old.equivalent_attempts

count_attempt-IsCounted :
    (group : Uuid) (db : Schema.Db) → IsCounted (find group db.guards) (count_attempt group db).0
unfolding count_attempt
count_attempt-IsCounted group db = elim (Option-cases (find group db.guards)) [
  | inl e ↦ rw (e, count_attempt) refl
  | inr (g, e) ↦ rw (e, count_attempt) refl
]

-- The group of a request in a window.
abbrev pub IsGroupOf : AdmissionRequest → Uuid → Schema.EquivalenceGroup → Type 0
IsGroupOf request window g =
    (g.budget_window_id ≡ window)
    × (g.capability_id ≡ request.capability_id)
    × (g.fingerprint_version ≡ request.fingerprint_version)
    × (g.semantic_fingerprint ≡ request.semantic_fingerprint)

is_group-IsGroupOf :
    (request : AdmissionRequest) (window : Uuid) (g : Schema.EquivalenceGroup)
    → is_group request window g ≡ true
    → IsGroupOf request window g
unfolding is_group
is_group-IsGroupOf request window g h =
    let (abc, d) = &&-true _ _ h in
    let (ab, c) = &&-true _ _ abc in
    let (a, b) = &&-true _ _ ab in ((==_iff _ _).0 a, is→≡ _ _ b, is→≡ _ _ c, is→≡ _ _ d)

ensure_group-IsGroupOf :
    (fresh : Uuid) (request : AdmissionRequest) (window : Uuid) (db : Schema.Db)
    → IsKeyed db.groups
    → (g : Schema.EquivalenceGroup) × (find
          (ensure_group fresh request window db).0
          (ensure_group fresh request window db).1.groups
        ≡ some g)
      × IsGroupOf request window g
unfolding ensure_group
ensure_group-IsGroupOf fresh request window db keyed =
    elim (Option-cases (search_row (is_group request window) db.groups)) [
      | inl e ↦
          let g : Schema.EquivalenceGroup = record {
            budget_window_id = window;
            capability_id = request.capability_id;
            fingerprint_version = request.fingerprint_version;
            semantic_fingerprint = request.semantic_fingerprint;
          } in
          (g, rw (e, ensure_group) (find-put_self fresh g db.groups), (refl, refl, refl, refl))
      | inr ((k, g), e) ↦
          let (there, passes) = search_row-some (is_group request window) db.groups keyed e in
          (g, rw (e, ensure_group) there, is_group-IsGroupOf request window g passes)
    ]

-- What an admission into the window `window` of `db` read on its way, and its inserts.
pub record IsAdmitted (now : Time) (window id : Uuid) (window_maximum : Cost)
    (request : AdmissionRequest) (db db' : Schema.Db) : Type 0 where
  pub window_row : Schema.BudgetWindow
  pub there : find window db.windows ≡ some window_row
  pub within :
      exceeds_budget request.maximum window_maximum window_row (total (debt_share window) db.debts)
      ≡ false
  pub group : Uuid
  pub guard : Schema.RetryGuard
  pub groups : Table Schema.EquivalenceGroup
  pub guards : Table Schema.RetryGuard
  pub counted : find group guards ≡ some guard
  pub counted_once : IsCounted (find group db.guards) guard
  pub grouped :
      IsKeyed db.groups
      → (g : Schema.EquivalenceGroup) × (find group groups ≡ some g) × IsGroupOf request window g
  pub free : ltb 0 guard.blocking_attempts ≡ false
  pub calm :
      (guard.blocked || leb_ℤ request.retry_threshold (pos guard.equivalent_attempts)) ≡ false
  pub inserted :
      insert_attempt now request id window group (record db { groups = groups; guards = guards })
      ≡ ok db'

pub admit_new-IsAdmitted :
    (now : Time) (fresh : FreshIds) (id : Uuid) (policy : String) (window_maximum : Cost)
    (request : AdmissionRequest) (db : Schema.Db) {db' : Schema.Db}
    → admit_new now fresh id policy window_maximum request db ≡ ok db'
    → IsAdmitted now
        (ensure_window fresh.window request policy (window_start now request) db).0
        id
        window_maximum
        request
        (ensure_window fresh.window request policy (window_start now request) db).1
        db'
unfolding admit_new
admit_new-IsAdmitted now fresh id policy window_maximum request db {db'} h =
    let k = (ensure_window fresh.window request policy (window_start now request) db).0 in
    let db1 = (ensure_window fresh.window request policy (window_start now request) db).1 in
    bind-ok (Schema.row (find k db1.windows)) h (λ w hw h1.
      let (within, h2) =
        else-ok (exceeds_budget request.maximum window_maximum w (total (debt_share k) db1.debts))
          Schema.budget_exhausted _ h1 in
      let group = (ensure_group fresh.group request k db1).0 in
      let db2 = (ensure_group fresh.group request k db1).1 in
      let g = (count_attempt group db2).0 in
      let db3 = (count_attempt group db2).1 in
      let (free, calm, h3) = guarded-ok request g (insert_attempt now request id k group db3) h2 in
      let (gs, e2) =
        ensure_group-keeps
          (λ d. (t : Table Schema.EquivalenceGroup) × (d ≡ record db1 { groups = t })) fresh.group
          request k db1 (λ t. (t, refl)) in
      let (us, e3) =
        count_attempt-keeps (λ d. (t : Table Schema.RetryGuard) × (d ≡ record db2 { guards = t }))
          group db2 (λ t. (t, refl)) in
      record {
        window_row = w;
        there = row-ok (find k db1.windows) hw;
        within = within;
        group = group;
        guard = g;
        groups = gs;
        guards = us;
        counted = ap (λ d. find group d.guards) (sym e3) ∙ count_attempt-find group db2;
        counted_once =
            subst (λ (d : Schema.Db). IsCounted (find group d.guards) g) e2
              (count_attempt-IsCounted group db2);
        grouped = λ keyed.
            subst
              (λ (d : Schema.Db).
                (x : Schema.EquivalenceGroup) × (find group d.groups ≡ some x)
                × IsGroupOf request k x)
              e2 (ensure_group-IsGroupOf fresh.group request k db1 keyed);
        free = free;
        calm = calm;
        inserted =
            ap (λ d. insert_attempt now request id k group (record d { guards = us })) (sym e2)
            ∙ ap (insert_attempt now request id k group) (sym e3)
            ∙ h3;
      })

-- An insert checks the objects, moves the window and puts the four rows.
pub insert_attempt-ok :
    (now : Time) (request : AdmissionRequest) (id window group : Uuid) (db : Schema.Db)
    {db' : Schema.Db}
    → insert_attempt now request id window group db ≡ ok db'
    → (ltb_ℤ request.maximum.distinct_objects (pos 0) ≡ false)
      × (db' ≡ record db {
        attempts = put id (new_attempt now request) db.attempts;
        claims = put id (new_claim request) db.claims;
        contexts = put id (new_context request window group) db.contexts;
        reservations = put id (new_reservation request.maximum window) db.reservations;
        windows = modify window (hold request.maximum) db.windows;
      })
unfolding insert_attempt
insert_attempt-ok now request id window group db h =
    let (new, h1) =
      else-ok
        (is_some (find id db.attempts)
          || is_some (search_row (same_key request) db.attempts)
          || is_some (find id db.claims)
          || is_some (find id db.contexts)
          || is_some (find id db.reservations))
        Schema.unique_violation _ h in
    let (nonneg, h2) =
      else-ok (ltb_ℤ request.maximum.distinct_objects (pos 0)) Schema.check_violation _ h1 in
    (nonneg, update_window-ok window (hold request.maximum) _ h2)

-- A replay is of the same request, and changes nothing.
pub replay-same :
    (request : AdmissionRequest) (id : Uuid) (claim : Schema.IdempotencyClaim) (db : Schema.Db)
    {d : AdmissionDecision} {db' : Schema.Db}
    → replay request id claim db ≡ ok (d, db')
    → (claim.request_hash differs request.request_hash ≡ false)
      × (d ≡ record { attempt_id = id; lock_version = 0; replay = true })
      × (db' ≡ db)
unfolding replay
replay-same request id claim db h =
    let (same, h1) =
      else-ok (claim.request_hash differs request.request_hash) Schema.idempotency_conflict _ h in
    bind-ok (Schema.row (find id db.attempts)) h1 (λ a ha h2.
      let (known, h3) = else-ok (outcome_unknown a.state) Schema.idempotency_outcome_unknown _ h2 in
      (same, sym (ap (λ p. p.0) (ok-injective h3)), sym (ap (λ p. p.1) (ok-injective h3))))

or_unsupported-ok {ℓ κ} :
    {E : Type ℓ} {A : Type κ} (m : Result E A) {a : A} → or_unsupported m ≡ ok a → m ≡ ok a
or_unsupported-ok (ok a) h = cc
or_unsupported-ok (err e) h = cc

-- What a call that succeeded did: it named an earlier attempt again, or it admitted a new one.
pub reserve_once-ok :
    (now : Time) (fresh : FreshIds) (request : AdmissionRequest) (db : Schema.Db)
    {d : AdmissionDecision} {db' : Schema.Db}
    → reserve_once now fresh request db ≡ ok (d, db')
    → ((id : Uuid) × (claim : Schema.IdempotencyClaim) × (search_row
            (claims_request request)
            db.claims
          ≡ some (id, claim))
        × (replay request id claim db ≡ ok (d, db')))
      ⊎ ((policy : String) × (window_maximum : Cost) × (admission_window_budget request
            ≡ ok (policy, window_maximum))
          × (search_row (claims_request request) db.claims ≡ none)
          × (d ≡ record { attempt_id = attempt_id fresh request; lock_version = 0; replay = false })
          × (admit_new now fresh (attempt_id fresh request) policy window_maximum request db
              ≡ ok db'))
unfolding reserve_once
reserve_once-ok now fresh request db {d} {db'} h =
    let (valid, h1) =
      else-ok
        (leb_ℤ request.window (pos 0)
          || ltb_ℤ request.retry_threshold (pos 1)
          || ltb_ℤ request.maximum.tool_calls (pos 1))
        Schema.invalid_admission_policy _ h in
    bind-ok (or_unsupported (admission_window_budget request)) h1 (λ b hb h2.
      elim (Option-cases (search_row (claims_request request) db.claims)) [
        | inr ((id, claim), e) ↦ inl (id, claim, e, (rw e at h2))
        | inl e ↦
            bind-ok (admit_new now fresh (attempt_id fresh request) b.0 b.1 request db) (rw e at h2)
              (λ x hx h3. inr (
                b.0,
                b.1,
                or_unsupported-ok (admission_window_budget request) hb,
                e,
                sym (ap (λ p. p.0) (ok-injective h3)),
                hx ∙ ap ok (ap (λ p. p.1) (ok-injective h3)),
              ))
      ])
