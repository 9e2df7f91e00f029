-- ===== src/Store/Ledger/Columns.antt =====
-- One counter of the windows against one sum over the rows of another table.
use ouf_mcp_server.Prelude.{
  ℕ, true, false, Option, none, some, ◌≡◌, sym, ap, ◌∙◌, ◌==◌, ==_iff, if◌then◌else◌, Bool-cases,
  Option-cases, inl, inr, subst,
}
use ouf_mcp_server.Prelude.Int.{ℤ, pos, ◌+ℤ◌, int_laws, parts}
use ouf_mcp_server.Orchestration.Domain.{Uuid}
use ouf_mcp_server.Store.Table.{
  Table, find, modify, put, total, total-modify, total-put, find-modify_self, find-modify_ne,
  find-modify-none, find-put,
}
use ouf_mcp_server.Store.Schema

module _ {V : Type 0} (owner : V → Uuid) (share : V → ℤ) where
  -- The share of a row in the sum of window `k`.
  abbrev pub share_in : Uuid → V → ℤ
  share_in k v = if owner v == k then share v else pos 0

abbrev pub column : (Schema.BudgetWindow → ℤ) → Option Schema.BudgetWindow → ℤ
column col none = pos 0
column col (some w) = col w

-- From the share of one row in the sums to the sums.
settle-here : (a c s s' t t' : ℤ) → c ≡ t → a +ℤ s ≡ c +ℤ s' → t' +ℤ s ≡ t +ℤ s' → a ≡ t'
settle-here a c s s' t t' p q r = omega (int_laws, parts p, parts q, parts r)

settle-elsewhere : (c t t' : ℤ) → c ≡ t → t' +ℤ pos 0 ≡ t +ℤ pos 0 → c ≡ t'
settle-elsewhere c t t' p r = omega (int_laws, parts p, parts r)

grow-here : (a c s t : ℤ) → c ≡ t → a ≡ c +ℤ s → a ≡ s +ℤ t
grow-here a c s t p q = omega (int_laws, parts p, parts q)

zero_plus : (a : ℤ) → pos 0 +ℤ a ≡ a
zero_plus a = omega int_laws

module _ {V : Type 0} (owner : V → Uuid) (share : V → ℤ) (col : Schema.BudgetWindow → ℤ) where
  -- The counter of every window is the sum, and the sum is 0 where there is no window.
  abbrev pub IsBalanced : Table Schema.BudgetWindow → Table V → Type 0
  IsBalanced ws t = (k : Uuid) → column col (find k ws) ≡ total (share_in owner share k) t

  column_self :
      (ws : Table Schema.BudgetWindow) (k j : Uuid) (w : Schema.BudgetWindow)
      (upd : Schema.BudgetWindow → Schema.BudgetWindow)
      → (j == k) ≡ true
      → find j ws ≡ some w
      → (column col (find k ws) ≡ col w) × (column col (find k (modify j upd ws)) ≡ col (upd w))
  column_self ws k j w upd e there =
      let same = (==_iff j k).0 e in
      (
        subst (λ i. column col (find i ws) ≡ col w) same (ap (column col) there),
        subst (λ i. column col (find i (modify j upd ws)) ≡ col (upd w)) same
            (ap (column col) (find-modify_self j upd ws there)),
      )

  share_in-here : (k : Uuid) (v : V) → (owner v == k) ≡ true → share_in owner share k v ≡ share v
  share_in-here k v e = rw e

  share_in-elsewhere :
      (k : Uuid) (v : V) → (owner v == k) ≡ false → share_in owner share k v ≡ pos 0
  share_in-elsewhere k v e = rw e

  -- A row changes, and its window by the difference.
  pub IsBalanced-move :
      (ws : Table Schema.BudgetWindow) (t : Table V) (id : ℕ) (v : V) (w : Schema.BudgetWindow)
      (upd : Schema.BudgetWindow → Schema.BudgetWindow) (g : V → V)
      → IsBalanced ws t
      → find id t ≡ some v
      → find (owner v) ws ≡ some w
      → owner (g v) ≡ owner v
      → col (upd w) +ℤ share v ≡ col w +ℤ share (g v)
      → IsBalanced (modify (owner v) upd ws) (modify id g t)
  IsBalanced-move ws t id v w upd g bal there window same moves k =
      let sum = total-modify (share_in owner share k) id g t there in
      elim (Bool-cases (owner v == k)) [
        | inl e ↦
            let (old, new) = column_self ws k (owner v) w upd e window in
            let e' : (owner (g v) == k) ≡ true = ap (λ j. j == k) same ∙ e in
            new
            ∙ settle-here (col (upd w)) (col w) (share v) (share (g v))
                (total (share_in owner share k) t) (total (share_in owner share k) (modify id g t))
                (sym old ∙ bal k) moves
                (subst
                  (λ x.
                    total (share_in owner share k) (modify id g t) +ℤ x
                    ≡ total (share_in owner share k) t +ℤ share (g v))
                  (share_in-here k v e)
                  (subst
                    (λ x.
                      total (share_in owner share k) (modify id g t) +ℤ share_in owner share k v
                      ≡ total (share_in owner share k) t +ℤ x)
                    (share_in-here k (g v) e') sum))
        | inr e ↦
            let e' : (owner (g v) == k) ≡ false = ap (λ j. j == k) same ∙ e in
            ap (column col) (find-modify_ne (owner v) k upd ws e)
            ∙ settle-elsewhere (column col (find k ws)) (total (share_in owner share k) t)
                (total (share_in owner share k) (modify id g t)) (bal k)
                (subst
                  (λ x.
                    total (share_in owner share k) (modify id g t) +ℤ x
                    ≡ total (share_in owner share k) t +ℤ pos 0)
                  (share_in-elsewhere k v e)
                  (subst
                    (λ x.
                      total (share_in owner share k) (modify id g t) +ℤ share_in owner share k v
                      ≡ total (share_in owner share k) t +ℤ x)
                    (share_in-elsewhere k (g v) e') sum))
      ]

  -- The window changes in another counter.
  pub IsBalanced-keep :
      (ws : Table Schema.BudgetWindow) (t : Table V) (j : Uuid)
      (upd : Schema.BudgetWindow → Schema.BudgetWindow)
      → IsBalanced ws t
      → ((w : Schema.BudgetWindow) → find j ws ≡ some w → col (upd w) ≡ col w)
      → IsBalanced (modify j upd ws) t
  IsBalanced-keep ws t j upd bal same k = elim (Bool-cases (j == k)) [
    | inr e ↦ ap (column col) (find-modify_ne j k upd ws e) ∙ bal k
    | inl e ↦ elim (Option-cases (find j ws)) [
      | inl absent ↦
          ap (column col) (
            find-modify-none j k upd ws (subst (λ i. find i ws ≡ none) ((==_iff j k).0 e) absent)
            ∙ sym (subst (λ i. find i ws ≡ none) ((==_iff j k).0 e) absent))
          ∙ bal k
      | inr (w, there) ↦
          let (old, new) = column_self ws k j w upd e there in new ∙ same w there ∙ sym old ∙ bal k
    ]
  ]

  -- A row is inserted, and its window grows by its share.
  pub IsBalanced-put :
      (ws : Table Schema.BudgetWindow) (t : Table V) (id : ℕ) (v : V) (w : Schema.BudgetWindow)
      (upd : Schema.BudgetWindow → Schema.BudgetWindow)
      → IsBalanced ws t
      → find (owner v) ws ≡ some w
      → col (upd w) ≡ col w +ℤ share v
      → IsBalanced (modify (owner v) upd ws) (put id v t)
  IsBalanced-put ws t id v w upd bal window grows k = elim (Bool-cases (owner v == k)) [
    | inl e ↦
        let (old, new) = column_self ws k (owner v) w upd e window in
        new
        ∙ grow-here (col (upd w)) (col w) (share v) (total (share_in owner share k) t)
            (sym old ∙ bal k) grows
        ∙ sym (
            total-put (share_in owner share k) id v t
            ∙ ap (λ x. x +ℤ total (share_in owner share k) t) (share_in-here k v e))
    | inr e ↦
        ap (column col) (find-modify_ne (owner v) k upd ws e)
        ∙ bal k
        ∙ sym (
            total-put (share_in owner share k) id v t
            ∙ ap (λ x. x +ℤ total (share_in owner share k) t) (share_in-elsewhere k v e)
            ∙ zero_plus (total (share_in owner share k) t))
  ]

  -- A window is inserted with an empty counter.
  pub IsBalanced-open :
      (ws : Table Schema.BudgetWindow) (t : Table V) (j : Uuid) (w : Schema.BudgetWindow)
      → IsBalanced ws t
      → find j ws ≡ none
      → col w ≡ pos 0
      → IsBalanced (put j w ws) t
  IsBalanced-open ws t j w bal absent empty k = elim (Bool-cases (j == k)) [
    | inl e ↦
        ap (column col) (find-put j k w ws ∙ ap (λ b. if b then some w else find k ws) e)
        ∙ empty
        ∙ sym (ap (column col) (subst (λ i. find i ws ≡ none) ((==_iff j k).0 e) absent))
        ∙ bal k
    | inr e ↦
        ap (column col) (find-put j k w ws ∙ ap (λ b. if b then some w else find k ws) e) ∙ bal k
  ]
