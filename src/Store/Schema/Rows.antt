-- ===== src/Store/Schema/Rows.antt =====
-- What a statement that succeeded found and wrote.
use ouf_mcp_server.Prelude.{
  Bool, true, Option, none, some, ◌≡◌, sym, ap, ◌∙◌, ok, Bool-cases, Option-cases, inl, inr,
  ok-injective,
}
use ouf_mcp_server.Orchestration.Domain.{Uuid}
use ouf_mcp_server.Store.Table.{Table, find, modify, modify-absent}
use ouf_mcp_server.Store.Schema.{BudgetWindow, Db, row, window_ok, update_window, exec_one}

pub row-ok {ℓ} : {A : Type ℓ} (o : Option A) {a : A} → row o ≡ ok a → o ≡ some a
row-ok none h = cc
row-ok (some b) h = cc

pub update_window-ok :
    (id : Uuid) (f : BudgetWindow → BudgetWindow) (db : Db) {db' : Db}
    → update_window id f db ≡ ok db'
    → db' ≡ record db { windows = modify id f db.windows }
unfolding update_window
update_window-ok id f db h = elim (Option-cases (find id db.windows)) [
  | inl e ↦
      let same : ok db ≡ ok _ = rw (e, update_window) at h in
      sym (ok-injective same)
      ∙ ap (λ t. record db { windows = t }) (sym (modify-absent id f db.windows e))
  | inr (w, e) ↦ elim (Bool-cases (window_ok (f w))) [
    | inl fits ↦ sym (ok-injective (rw (e, fits, update_window) at h))
    | inr off ↦ cc (rw (e, off, update_window) at h)
  ]
]

pub exec_one-ok {ℓ} :
    {V : Type ℓ} (id : Uuid) (test : V → Bool) (f : V → V) (t : Table V) {t' : Table V}
    → exec_one id test f t ≡ ok t'
    → (v : V) × (find id t ≡ some v) × (test v ≡ true) × (t' ≡ modify id f t)
unfolding exec_one
exec_one-ok id test f t h = elim (Option-cases (find id t)) [
  | inl e ↦ cc (rw (e, exec_one) at h)
  | inr (v, e) ↦ elim (Bool-cases (test v)) [
    | inl fits ↦ (v, e, fits, sym (ok-injective (rw (e, fits, exec_one) at h)))
    | inr off ↦ cc (rw (e, off, exec_one) at h)
  ]
]
