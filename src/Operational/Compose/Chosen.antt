-- ===== src/Operational/Compose/Chosen.antt =====
-- The second loop of a round of `compose` of internal/operational/cursor_composer.go finds the first
-- of the next items of the owners.
use ouf_mcp_server.Prelude.{
  ℕ, suc, ◌+◌, Bool, true, false, Option, none, some, List, [], ◌∷◌, ◌≡◌, refl, sym, ap, ◌∙◌, subst,
  All, ok, ok-injective, arith, Bool-cases, inl, inr, ◌⊎◌, some-injective, if-true, if-false,
}
use ouf_mcp_server.Operational.Incidents.{Item}
use ouf_mcp_server.Operational.Incidents.Order.{incident_before-IsStrictOrder}
use ouf_mcp_server.Operational.Frames.{OwnerPosition, Codec}
use ouf_mcp_server.Operational.Pages.{get_elem?}
use ouf_mcp_server.Operational.Pages.Decoded.{IsPage}
use ouf_mcp_server.Operational.Refill.{Pages, before}
use ouf_mcp_server.Operational.Refill.Ready.{head_of, may_follow, IsReady, Ready}
use ouf_mcp_server.Operational.Compose.{better, choose}

abbrev pub head_at : Pages → OwnerPosition → Option Item
head_at pages owner = head_of (pages owner.name) owner

module _ (codec : Codec) where
  -- The candidate is the item, or comes before it.
  abbrev pub AtMost : Item → Item → Type 0
  AtMost candidate b = (b ≡ candidate) ⊎ (before codec candidate b ≡ true)

  AtMost-before : (c b : Item) → AtMost c b → before codec b c ≡ false
  AtMost-before c b (inl e) = rw e ((incident_before-IsStrictOrder codec.parse_time).irreflexive c)
  AtMost-before c b (inr h) =
      let order = incident_before-IsStrictOrder codec.parse_time in
      ground (arith, order.transitive b c b, order.irreflexive b)

  AtMost-trans : (c b x : Item) → AtMost c b → before codec x b ≡ false → before codec x c ≡ false
  AtMost-trans c b x (inl e) h = subst (λ y. before codec x y ≡ false) e h
  AtMost-trans c b x (inr p) h =
      let order = incident_before-IsStrictOrder codec.parse_time in
      ground (arith, order.transitive x c b)

  AtMost-through : (c x b : Item) → AtMost c x → before codec x b ≡ true → AtMost c b
  AtMost-through c x b (inl e) h = inr (subst (λ y. before codec y b ≡ true) e h)
  AtMost-through c x b (inr p) h =
      inr ((incident_before-IsStrictOrder codec.parse_time).transitive c x b p h)

module _ (codec : Codec) (last : Option Item) where
  -- An owner whose next item does not come before the candidate.
  abbrev pub Beaten : Item → Pages → OwnerPosition → Type 0
  Beaten candidate pages owner =
      owner.done ≡ false
      → (x : Item) × (head_at pages owner ≡ some x)
        × (before codec x candidate ≡ false)
        × IsPage codec (pages owner.name)

  -- The candidate is the next item of the owner at the position.
  abbrev pub Offers : ℕ → Item → Pages → List OwnerPosition → Type 0
  Offers k candidate pages owners =
      (owner : OwnerPosition) × (get_elem? owners k ≡ some owner)
      × (head_at pages owner ≡ some candidate)
      × (may_follow codec last candidate ≡ true)
      × IsPage codec (pages owner.name)

  -- What the scan for the first item finds, by its result: the best so far comes from before the
  -- owners, or from one of them.
  abbrev pub Found : Pages → ℕ → Option (ℕ × Item) → List OwnerPosition → Option (ℕ × Item) → Type 0
  Found pages index best owners none = (best ≡ none) × All (λ o. ◌≡◌ {A = Bool} o.done true) owners
  Found pages index best owners (some (winner, candidate)) =
      All (Beaten candidate pages) owners
      × ((i : ℕ) (b : Item) → best ≡ some (i, b) → AtMost codec candidate b)
      × ((best ≡ some (winner, candidate))
          ⊎ ((k : ℕ) × (winner ≡ index + k) × Offers k candidate pages owners))

  choose_done-Found :
      (pages : Pages) (index : ℕ) (best : Option (ℕ × Item)) (owner : OwnerPosition)
      (rest : List OwnerPosition) (found : Option (ℕ × Item))
      → owner.done ≡ true
      → Found pages (suc index) best rest found
      → Found pages index best (owner ∷ rest) found
  unfolding get_elem?
  choose_done-Found pages index best owner rest none d (e, all-done) = (e, (d, all-done))
  choose_done-Found pages index best owner rest (some (w, c)) d (beaten, bound, inl e) =
      ((λ o. cc, beaten), bound, inl e)
  choose_done-Found pages index best owner rest (some (w, c)) d (beaten, bound, inr (k, e, offer)) =
      ((λ o. cc, beaten), bound, inr (suc k, omega (arith, e), offer))

  -- The owner's next item becomes the best so far.
  choose_taken-Found :
      (pages : Pages) (index : ℕ) (best : Option (ℕ × Item)) (owner : OwnerPosition)
      (rest : List OwnerPosition) (found : Option (ℕ × Item))
      → (ready : IsReady codec last (pages owner.name) owner)
      → ((i : ℕ) (b : Item) → best ≡ some (i, b) → before codec ready.next b ≡ true)
      → Found pages (suc index) (some (index, ready.next)) rest found
      → Found pages index best (owner ∷ rest) found
  unfolding get_elem?
  choose_taken-Found pages index best owner rest none ready earlier (e, all-done) = cc
  choose_taken-Found pages index best owner rest (some (w, c)) ready earlier
        (beaten, bound, origin) =
      let least = bound index ready.next refl in
      (
        (
          λ d. (ready.next, ready.shows, AtMost-before codec c ready.next least, ready.sound),
          beaten,
        ),
        λ i b e. AtMost-through codec c ready.next b least (earlier i b e),
        elim origin [
          | inl e ↦
              let at : ready.next ≡ c = ap (λ p. p.1) (some-injective e) in
              let first : index ≡ w = ap (λ p. p.0) (some-injective e) in
              inr (
                0,
                omega (arith, first),
                (
                  owner,
                  refl,
                  ready.shows ∙ ap some at,
                  subst (λ y. may_follow codec last y ≡ true) at ready.follows,
                  ready.sound,
                ),
              )
          | inr (k, e, offer) ↦ inr (suc k, omega (arith, e), offer)
        ],
      )

  -- The best so far stays.
  choose_kept-Found :
      (pages : Pages) (index i : ℕ) (b : Item) (owner : OwnerPosition) (rest : List OwnerPosition)
      (found : Option (ℕ × Item))
      → (ready : IsReady codec last (pages owner.name) owner) → before codec ready.next b ≡ false
      → Found pages (suc index) (some (i, b)) rest found
      → Found pages index (some (i, b)) (owner ∷ rest) found
  unfolding get_elem?
  choose_kept-Found pages index i b owner rest none ready later (e, all-done) = cc
  choose_kept-Found pages index i b owner rest (some (w, c)) ready later (beaten, bound, origin) = (
    (
      λ d. (
        ready.next,
        ready.shows,
        AtMost-trans codec c b ready.next (bound i b refl) later,
        ready.sound,
      ),
      beaten,
    ),
    bound,
    elim origin [ inl e ↦ inl e | inr (k, e, offer) ↦ inr (suc k, omega (arith, e), offer) ],
  )

  choose_open-Found :
      (pages : Pages) (index : ℕ) (best : Option (ℕ × Item)) (owner : OwnerPosition)
      (rest : List OwnerPosition) (found : Option (ℕ × Item))
      → (ready : IsReady codec last (pages owner.name) owner)
      → Found pages (suc index) (better codec best index ready.next) rest found
      → Found pages index best (owner ∷ rest) found
  choose_open-Found pages index none owner rest found ready h =
      choose_taken-Found pages index none owner rest found ready (λ i b e. cc) h
  choose_open-Found pages index (some (i, b)) owner rest found ready h =
      elim (Bool-cases (before codec ready.next b)) [
        | inl e ↦
            choose_taken-Found pages index (some (i, b)) owner rest found ready
              (λ j b' q.
                subst (λ y. before codec ready.next y ≡ true) (ap (λ p. p.1) (some-injective q)) e)
              (rw e at h)
        | inr e ↦ choose_kept-Found pages index i b owner rest found ready e (rw e at h)
      ]

  pub choose-Found :
      (pages : Pages) (index : ℕ) (best : Option (ℕ × Item)) (owners : List OwnerPosition)
      (found : Option (ℕ × Item))
      → All (Ready codec last pages) owners
      → choose codec pages index best owners ≡ ok found
      → Found pages index best owners found
  unfolding choose
  choose-Found pages index best [] none ready h = (ok-injective h, tt)
  choose-Found pages index best [] (some (winner, candidate)) ready h = (
    tt,
    λ i b e. inl (ap (λ p. p.1) (some-injective (sym e ∙ ok-injective h))),
    inl (ok-injective h),
  )
  choose-Found pages index best (owner ∷ rest) found ready h = elim (Bool-cases owner.done) [
    | inl d ↦
        choose_done-Found pages index best owner rest found d
          (choose-Found pages (suc index) best rest found ready.1 (if-true owner.done _ _ d h))
    | inr d ↦
        let r = ready.0 d in
        choose_open-Found pages index best owner rest found r (
          choose-Found pages (suc index) (better codec best index r.next) rest found ready.1
            (rw r.shows at (if-false owner.done _ _ d h)))
  ]
