-- ===== src/Store/Table.antt =====
-- A table of PostgreSQL as a list of rows under their primary key, and sums over its rows.
use ouf_mcp_server.Prelude.{
  ℕ, Bool, true, false, Option, none, some, List, [], ◌∷◌, ◌≡◌, refl, sym, ap, ◌∙◌, arith, ◌==◌,
  ==_refl, ==_iff, if◌then◌else◌, ◌⊎◌, Bool-cases, inl, inr, Option-cases, subst, some-injective,
}
use ouf_mcp_server.Prelude.Int.{ℤ, pos, ◌+ℤ◌, int_laws, parts}

abbrev pub Table {ℓ} : Type ℓ → Type ℓ
Table V = List (ℕ × V)

abbrev map_option {ℓ} : {A B : Type ℓ} → (A → B) → Option A → Option B
map_option f none = none
map_option f (some a) = some (f a)

module _ {ℓ} {V : Type ℓ} where
  -- `select ... where key = $1`.
  unfoldable pub find : ℕ → Table V → Option V
  find k [] = none
  find k ((j, v) ∷ rest) = if j == k then some v else find k rest

  -- `update ... where key = $1`.
  unfoldable pub modify : ℕ → (V → V) → Table V → Table V
  modify k f [] = []
  modify k f ((j, v) ∷ rest) = if j == k then (j, f v) ∷ rest else (j, v) ∷ modify k f rest

  -- `insert`, of a key that is not there.
  abbrev pub put : ℕ → V → Table V → Table V
  put k v t = (k, v) ∷ t

  -- `select ... where test limit 1`, with the key.
  unfoldable pub search_row : (V → Bool) → Table V → Option (ℕ × V)
  search_row test [] = none
  search_row test ((j, v) ∷ rest) = if test v then some (j, v) else search_row test rest

  -- `select sum(f)`.
  unfoldable pub total : (V → ℤ) → Table V → ℤ
  total f [] = pos 0
  total f ((j, v) ∷ rest) = f v +ℤ total f rest

  find-modify_map :
      (k : ℕ) (f : V → V) (t : Table V) → find k (modify k f t) ≡ map_option f (find k t)
  unfolding find modify
  find-modify_map k f [] = refl
  find-modify_map k f ((j, v) ∷ rest) = ground (arith, find-modify_map k f rest)

  pub find-modify_self :
      (k : ℕ) (f : V → V) (t : Table V) {v : V}
      → find k t ≡ some v
      → find k (modify k f t) ≡ some (f v)
  find-modify_self k f t h = find-modify_map k f t ∙ ap (map_option f) h

  pub find-modify_ne :
      (k j : ℕ) (f : V → V) (t : Table V) → (k == j) ≡ false → find j (modify k f t) ≡ find j t
  unfolding find modify
  find-modify_ne k j f [] h = refl
  find-modify_ne k j f ((i, v) ∷ rest) h = ground (arith, find-modify_ne k j f rest)

  pub find-modify-none :
      (k j : ℕ) (f : V → V) (t : Table V) → find j t ≡ none → find j (modify k f t) ≡ none
  unfolding find modify
  find-modify-none k j f [] h = refl
  find-modify-none k j f ((i, v) ∷ rest) h = ground (arith, find-modify-none k j f rest)

  -- A row after a change was there before it.
  pub find-modify-some :
      (k j : ℕ) (f : V → V) (t : Table V) {v' : V}
      → find j (modify k f t) ≡ some v'
      → (v : V) × (find j t ≡ some v) × ((v' ≡ v) ⊎ (v' ≡ f v))
  find-modify-some k j f t {v'} h = elim (Option-cases (find j t)) [
    | inl e ↦ cc (find-modify-none k j f t e)
    | inr (v, e) ↦ elim (Bool-cases (k == j)) [
      | inl same ↦ (
        v,
        e,
        inr (
            cc (
              find-modify_self k f t {v = v} (ap (λ i. find i t) ((==_iff k j).0 same) ∙ e),
              ap (λ i. find i (modify k f t)) ((==_iff k j).0 same),
            )),
      )
      | inr other ↦ (v, e, inl (cc (find-modify_ne k j f t other)))
    ]
  ]

  -- A row before a change is there after it.
  pub find-modify_exists :
      (k j : ℕ) (f : V → V) (t : Table V) {v : V}
      → find j t ≡ some v
      → (v' : V) × (find j (modify k f t) ≡ some v')
  find-modify_exists k j f t {v} e = elim (Bool-cases (k == j)) [
    | inl same ↦ (
      f v,
      ap (λ i. find i (modify k f t)) (sym ((==_iff k j).0 same))
          ∙ find-modify_self k f t (ap (λ i. find i t) ((==_iff k j).0 same) ∙ e),
    )
    | inr other ↦ (v, find-modify_ne k j f t other ∙ e)
  ]

  pub modify-absent : (k : ℕ) (f : V → V) (t : Table V) → find k t ≡ none → modify k f t ≡ t
  unfolding find modify
  modify-absent k f [] h = refl
  modify-absent k f ((j, v) ∷ rest) h = ground (arith, modify-absent k f rest)

  -- A change of one row moves a sum by the difference of the row's share.
  pub total-modify :
      (f : V → ℤ) (k : ℕ) (g : V → V) (t : Table V) {v : V}
      → find k t ≡ some v
      → total f (modify k g t) +ℤ f v ≡ total f t +ℤ f (g v)
  unfolding find modify total
  total-modify f k g [] h = cc
  total-modify f k g ((j, w) ∷ rest) {v} h = elim (Bool-cases (j == k)) [
    | inl e ↦ let same : w ≡ v = cc (rw (e, find) at h) in rw (e, modify, same) (omega int_laws)
    | inr e ↦
        rw (e, modify)
          (omega (int_laws, parts (total-modify f k g rest {v = v} (cc (rw (e, find) at h)))))
  ]

  pub total-put : (f : V → ℤ) (k : ℕ) (v : V) (t : Table V) → total f (put k v t) ≡ f v +ℤ total f t
  unfolding total
  total-put f k v t = refl

  pub find-put :
      (k j : ℕ) (v : V) (t : Table V) → find j (put k v t) ≡ (if k == j then some v else find j t)
  unfolding find
  find-put k j v t = refl

  -- The row under a key after an insert.
  pub put-cases :
      (k j : ℕ) (v : V) (t : Table V) {u : V}
      → find j (put k v t) ≡ some u
      → ((k == j) ≡ true) × (u ≡ v) ⊎ ((k == j) ≡ false) × (find j t ≡ some u)
  put-cases k j v t {u} h = elim (Bool-cases (k == j)) [
    | inl e ↦ inl (e, cc (find-put k j v t, ap (λ b. if b then some v else find j t) e))
    | inr e ↦ inr (e, cc (find-put k j v t, ap (λ b. if b then some v else find j t) e))
  ]

  pub find-put_self : (k : ℕ) (v : V) (t : Table V) → find k (put k v t) ≡ some v
  unfolding find
  find-put_self k v t = rw (==_refl k)

  -- No key stands twice.
  abbrev pub IsKeyed : Table V → Type ℓ
  IsKeyed [] = Unit {ℓ}
  IsKeyed ((j, v) ∷ rest) = (find j rest ≡ none) × IsKeyed rest

  -- A row that a search found passes its test, and it is the row under its key.
  pub search_row-some :
      (test : V → Bool) (t : Table V) {k : ℕ} {v : V}
      → IsKeyed t
      → search_row test t ≡ some (k, v)
      → (find k t ≡ some v) × (test v ≡ true)
  unfolding find search_row
  search_row-some test [] keyed h = cc
  search_row-some test ((j, w) ∷ rest) {k} {v} (new, keyed) h = elim (Bool-cases (test w)) [
    | inl e ↦
        let same : some (j, w) ≡ some (k, v) = rw e at h in
        let pair : (j, w) ≡ (k, v) = some-injective same in
        (
          subst (λ (p : ℕ × V). find p.0 ((j, w) ∷ rest) ≡ some p.1) pair (rw (==_refl j)),
          subst (λ (p : ℕ × V). test p.1 ≡ true) pair e,
        )
    | inr e ↦
        let (there, passes) = search_row-some test rest keyed (rw e at h) in
        (
          elim (Bool-cases (j == k)) [
            | inl same ↦ cc (ap (λ i. find i rest) ((==_iff j k).0 same), new, there)
            | inr other ↦ rw other there
          ],
          passes,
        )
  ]
