-- ===== src/Store/DebtCache/Repaired.antt =====
-- What `ReconcileDebtCaches` of internal/adapter/postgres/maintenance.go leaves in the counters.
use ouf_mcp_server.Prelude.{
  ℕ, zero, suc, ◌≤◌, true, false, none, some, List, [], ◌∷◌, ◌≡◌, refl, sym, ◌∙◌, subst, ltb, ◌==◌,
  ==_iff, ◌||◌, length, All, Result, ok, err, ok-injective, bind-ok, else-ok, arith, Bool-cases,
  inl, inr, if-true, if-false,
}
use ouf_mcp_server.Prelude.Int.{ℤ, pos, ◌-ℤ◌, ltb_ℤ, eqb_ℤ, -ℤ_parts, eq_of_parts}
use ouf_mcp_server.Orchestration.Domain.{Uuid}
use ouf_mcp_server.Store.Table.{Table, find, find-modify_self, find-modify_ne}
use ouf_mcp_server.Store.Schema
use ouf_mcp_server.Store.Schema.{StoreError, row, update_window}
use ouf_mcp_server.Store.Schema.Rows.{row-ok, update_window-ok}
use ouf_mcp_server.Store.DebtCache.{
  active_debt, debt_cache_delta, with_debt, audited, store_debt, repair, Repairs, Outcome, counted,
  settle, repair_all, stale_windows, reconcile_debt_caches,
}

-- The debt counter of a window is the sum of its active debts.
abbrev pub IsSettled : Schema.Db → Uuid → Type 0
IsSettled db id =
    (w : Schema.BudgetWindow) × (find id db.windows ≡ some w)
    × (w.current_unresolved_object_debt_total ≡ active_debt db id)

-- Only the counter of the window changes, and it is the sum then.
record IsRepaired (db : Schema.Db) (id : Uuid) (after : Schema.Db) : Type 0 where
  debts : after.debts ≡ db.debts
  settled : IsSettled after id
  elsewhere : (k : Uuid) → (id == k) ≡ false → find k after.windows ≡ find k db.windows

active_debt-same :
    (a b : Schema.Db) (id : Uuid) → a.debts ≡ b.debts → active_debt a id ≡ active_debt b id
unfolding active_debt
active_debt-same a b id same = rw same refl

equal_of_delta : (a b : ℤ) → eqb_ℤ (a -ℤ b) (pos 0) ≡ true → b ≡ a
equal_of_delta a b h = eq_of_parts b a (ground (arith, -ℤ_parts a b, h))

store_debt-IsRepaired :
    (db : Schema.Db) (id : Uuid) (w : Schema.BudgetWindow) {p : Schema.Db × ℤ}
    → find id db.windows ≡ some w
    → store_debt db id
        (active_debt db id)
        (active_debt db id -ℤ w.current_unresolved_object_debt_total)
      ≡ ok p
    → IsRepaired db id p.0
store_debt-IsRepaired db id w found h =
    let delta = active_debt db id -ℤ w.current_unresolved_object_debt_total in
    elim (Bool-cases (eqb_ℤ delta (pos 0))) [
      | inl e ↦
          subst (λ (p : Schema.Db × ℤ). IsRepaired db id p.0)
            (ok-injective (if-true (eqb_ℤ delta (pos 0)) _ _ e h))
            (record {
              debts = refl;
              settled = (w, found, equal_of_delta _ _ e);
              elsewhere = λ k other. refl;
            })
      | inr e ↦
          bind-ok (update_window id (with_debt (active_debt db id)) db)
            (if-false (eqb_ℤ delta (pos 0)) _ _ e h)
            (λ after q k.
              subst (λ (p : Schema.Db × ℤ). IsRepaired db id p.0) (ok-injective k)
                (subst (λ (d : Schema.Db). IsRepaired db id (audited d))
                  (sym (update_window-ok id _ db q))
                  (record {
                    debts = refl;
                    settled = (
                      with_debt (active_debt db id) w,
                      find-modify_self id (with_debt (active_debt db id)) db.windows found,
                      sym (active_debt-same _ db id refl),
                    );
                    elsewhere = λ j other.
                        find-modify_ne id j (with_debt (active_debt db id)) db.windows other;
                  })))
    ]

repair-IsRepaired :
    (db : Schema.Db) (id : Uuid) {p : Schema.Db × ℤ} → repair db id ≡ ok p → IsRepaired db id p.0
unfolding repair debt_cache_delta
repair-IsRepaired db id {p} h = bind-ok (row (find id db.windows)) h (λ w q k.
    bind-ok (debt_cache_delta w.current_unresolved_object_debt_total (active_debt db id)) k
      (λ delta r m.
        let same =
          ok-injective
            (else-ok
              (ltb_ℤ w.current_unresolved_object_debt_total (pos 0)
                || ltb_ℤ (active_debt db id) (pos 0))
              _ _ r).1 in
        store_debt-IsRepaired db id w (row-ok _ q)
          (subst (λ (d : ℤ). store_debt db id (active_debt db id) d ≡ ok p) (sym same) m)))

-- A window that is settled stays so.
repair-IsSettled :
    (db : Schema.Db) (id k : Uuid) {after : Schema.Db}
    → IsRepaired db id after
    → IsSettled db k
    → IsSettled after k
repair-IsSettled db id k {after} repaired (w, found, sum) = elim (Bool-cases (id == k)) [
  | inl e ↦ subst (IsSettled after) ((==_iff id k).0 e) repaired.settled
  | inr e ↦
      (w, repaired.elsewhere k e ∙ found, sum ∙ sym (active_debt-same after db k repaired.debts))
]

-- The loop without an error: the debts stay, what is settled stays so, and each window of the list is settled.
record IsDone (db : Schema.Db) (ids : List Uuid) (after : Schema.Db) : Type 0 where
  debts : after.debts ≡ db.debts
  stays : (k : Uuid) → IsSettled db k → IsSettled after k
  settled : All (IsSettled after) ids

settle-IsDone :
    (db : Schema.Db) (r : Repairs) (id : Uuid) (rest : List Uuid)
    (m : Result StoreError (Schema.Db × ℤ)) (again : Schema.Db → Repairs → Outcome)
    → repair db id ≡ m
    → ((d : Schema.Db) (q : Repairs) → (again d q).failure ≡ none → IsDone d rest (again d q).db)
    → (settle m db r again).failure ≡ none
    → IsDone db (id ∷ rest) (settle m db r again).db
settle-IsDone db r id rest (err e) again q go h = cc
settle-IsDone db r id rest (ok p) again q go h =
    let one = repair-IsRepaired db id q in
    let others = go p.0 (counted r p.1) h in
    record {
      debts = others.debts ∙ one.debts;
      stays = λ k s. others.stays k (repair-IsSettled db id k one s);
      settled = (others.stays id one.settled, others.settled);
    }

repair_all-IsDone :
    (db : Schema.Db) (r : Repairs) (ids : List Uuid)
    → (repair_all db r ids).failure ≡ none
    → IsDone db ids (repair_all db r ids).db
unfolding repair_all
repair_all-IsDone db r [] h = record { debts = refl; stays = λ k s. s; settled = tt }
repair_all-IsDone db r (id ∷ rest) h =
    settle-IsDone db r id rest (repair db id) (λ after counts. repair_all after counts rest) refl
      (λ d q k. repair_all-IsDone d q rest k) h

equal_of_test : (a b : ℤ) → eqb_ℤ a b ≡ true → a ≡ b
equal_of_test a b h = eq_of_parts a b (ground (arith, h))

-- A row of the table that the query passes over is settled.
stale_windows-IsSettled :
    (db : Schema.Db) (limit : ℕ) (rows : Table Schema.BudgetWindow) (P : Uuid → Type 0)
    → length rows ≤ limit
    → All (λ (p : Uuid × Schema.BudgetWindow). find p.0 db.windows ≡ some p.1) rows
    → ((k : Uuid) → IsSettled db k → P k)
    → All P (stale_windows db limit rows)
    → All (λ (p : Uuid × Schema.BudgetWindow). P p.0) rows
unfolding stale_windows
stale_windows-IsSettled db limit [] P short there settled done = tt
stale_windows-IsSettled db zero ((id, w) ∷ rest) P short there settled done =
    absurd (omega (arith, short))
stale_windows-IsSettled db (suc n) ((id, w) ∷ rest) P short there settled done =
    elim (Bool-cases (eqb_ℤ w.current_unresolved_object_debt_total (active_debt db id))) [
      | inl e ↦ (
        settled id (w, there.0, equal_of_test _ _ e),
        stale_windows-IsSettled db (suc n) rest P (omega (arith, short)) there.1 settled
            (rw e at done),
      )
      | inr e ↦
          let found : All P (id ∷ stale_windows db n rest) = rw e at done in
          (
            found.0,
            stale_windows-IsSettled db n rest P (omega (arith, short)) there.1 settled found.1,
          )
    ]

-- A run without an error whose limit covers the windows leaves the debts as they were and sets the debt
-- counter of every window that the query orders to the sum of its active debts, and no settled window changes
-- that, where the query orders rows of the table.
pub reconcile_debt_caches-IsSettled :
    (ordered : Table Schema.BudgetWindow → Table Schema.BudgetWindow) (db : Schema.Db) (limit : ℕ)
    → length (ordered db.windows) ≤ limit
    → All (λ (p : Uuid × Schema.BudgetWindow). find p.0 db.windows ≡ some p.1) (ordered db.windows)
    → (reconcile_debt_caches ordered db limit).failure ≡ none
    → ((reconcile_debt_caches ordered db limit).db.debts ≡ db.debts)
      × All
          (λ (p : Uuid × Schema.BudgetWindow).
            IsSettled (reconcile_debt_caches ordered db limit).db p.0)
          (ordered db.windows)
      × ((k : Uuid) → IsSettled db k → IsSettled (reconcile_debt_caches ordered db limit).db k)
unfolding reconcile_debt_caches
reconcile_debt_caches-IsSettled ordered db limit short there h = elim (Bool-cases (ltb limit 1)) [
  | inl e ↦ cc (rw e at h)
  | inr e ↦
      let ids : List Uuid = stale_windows db limit (ordered db.windows) in
      let all =
        repair_all-IsDone db (record { checked = length ids; repaired = 0; delta = pos 0 }) ids
          (rw e at h) in
      rw e (
        all.debts,
        stale_windows-IsSettled db limit (ordered db.windows)
            (IsSettled
              (repair_all db (record { checked = length ids; repaired = 0; delta = pos 0 }) ids).db)
            short there all.stays all.settled,
        all.stays,
      )
]
