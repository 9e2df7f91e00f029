-- ===== src/Operational/Refill/Ready.antt =====
-- What the pass of `compose` of internal/operational/cursor_composer.go over the owners leaves: each
-- owner that is not done shows its next item, and that item may follow the last one shown.

use ouf_mcp_server.Prelude.{
  ℕ, suc, String, Bool, true, false, not, ◌||◌, Option, none, some, List, [], ◌∷◌, ◌≡◌, refl, sym,
  ap, ◌∙◌, subst, ltb, leb, length, All, map, blank, ◌is◌, ◌differs◌, Result, ok, ok-injective,
  bind-ok, else-ok, arith, Bool-cases, Option-cases, inl, inr, is_refl, is_sym, if-true, if-false,
}
use ouf_mcp_server.Operational.Incidents.{Item}
use ouf_mcp_server.Operational.Query.{CursorError}
use ouf_mcp_server.Operational.Frames.{OwnerPosition, CursorFrame, Codec}
use ouf_mcp_server.Operational.Pages.{CursorOwnerPage, get_elem?, last_of}
use ouf_mcp_server.Operational.Pages.Decoded.{IsPage, get_elem?-some, get_elem?-none}
use ouf_mcp_server.Operational.Reads.{Owners, position, read_page}
use ouf_mcp_server.Operational.Reads.Checked.{read_page-IsPage}
use ouf_mcp_server.Operational.Refill.{
  Pages, put_page, Refilled, Heads, before, out_of_order, next_position, accept_page, exhausted,
  refill_owner, refill, finished, refused_publication,
}

abbrev pub head_of : CursorOwnerPage → OwnerPosition → Option Item
head_of page owner = get_elem? page.items owner.offset

-- An item may stand after the last one shown.
abbrev pub may_follow : Codec → Option Item → Item → Bool
may_follow codec none x = true
may_follow codec (some last) x = not (before codec x last)

-- An owner whose next item may follow, or whose page ends with the last item shown.
pub record IsInStep (codec : Codec) (last : Option Item) (page : CursorOwnerPage)
    (owner : OwnerPosition) : Type 0 where
  pub sound : IsPage codec page
  pub head : (x : Item) → head_of page owner ≡ some x → may_follow codec last x ≡ true
  pub tail :
      (l y : Item) → last ≡ some l → head_of page owner ≡ none → last_of page.items ≡ some y → y ≡ l

-- An owner that shows its next item.
pub record IsReady (codec : Codec) (last : Option Item) (page : CursorOwnerPage)
    (owner : OwnerPosition) : Type 0 where
  pub sound : IsPage codec page
  pub next : Item
  pub shows : head_of page owner ≡ some next
  pub follows : may_follow codec last next ≡ true

module _ (codec : Codec) (last : Option Item) where
  abbrev pub Fits : Pages → OwnerPosition → Type 0
  Fits pages owner = owner.done ≡ false → IsInStep codec last (pages owner.name) owner

  abbrev pub Ready : Pages → OwnerPosition → Type 0
  Ready pages owner = owner.done ≡ false → IsReady codec last (pages owner.name) owner

abbrev pub names : List OwnerPosition → List String
names owners = map (λ o. o.name) owners

-- A name that is not in the list.
abbrev pub Absent : String → List String → Type 0
Absent name others = All (λ n. ◌≡◌ {A = Bool} (name is n) false) others

abbrev pub Apart : List String → Type 0
Apart [] = Unit
Apart (name ∷ rest) = Absent name rest × Apart rest

-- What a look at one owner leaves.
record IsLooked (codec : Codec) (last : Option Item) (owner : OwnerPosition) (pages : Pages)
    (r : Refilled) : Type 0 where
  ready : r.unknown ≡ false → Ready codec last r.pages r.owner
  named : r.owner.name ≡ owner.name
  elsewhere : (n : String) → (n is owner.name) ≡ false → r.pages n ≡ pages n

module _ (codec : Codec) (world : Owners) (last : Option Item) where
  kept-IsLooked :
      (owner kept : OwnerPosition) (pages : Pages) (calls : ℕ) (unknown : Bool) {r : Refilled}
      → kept.name ≡ owner.name
      → (unknown ≡ false → Ready codec last pages kept)
      → ◌≡◌ {A = Result CursorError Refilled}
          (ok (record { owner = kept; pages = pages; calls = calls; unknown = unknown }))
          (ok r)
      → IsLooked codec last owner pages r
  kept-IsLooked owner kept pages calls unknown named ready h =
      subst (IsLooked codec last owner pages) (ok-injective h)
        (record { ready = ready; named = named; elsewhere = λ n e. refl })

  -- A page that passed the check at its border starts with an item that may follow.
  first-follows :
      (page : CursorOwnerPage) (owner : OwnerPosition) (x : Item)
      → IsInStep codec last page owner
      → blank page.next_cursor ≡ false
      → head_of page owner ≡ none
      → out_of_order codec world (last_of page.items) (some x) ≡ false
      → may_follow codec last x ≡ true
  first-follows page owner x step more used h =
      let y = step.sound.1 more in
      elim (Option-cases last) [
        | inl e ↦ rw e refl
        | inr (l, e) ↦
            let at-end : y.0 ≡ l = step.tail l y.0 e used y.1 in
            let o : out_of_order codec world (some y.0) (some x) ≡ false = rw y.1 at h in
            rw e (ap not (rw at-end at o))
      ]

  next_position-Ready :
      (owner : OwnerPosition) (pages : Pages) (next : CursorOwnerPage)
      → IsPage codec next
      → ((x : Item) → get_elem? next.items 0 ≡ some x → may_follow codec last x ≡ true)
      → Ready codec last (put_page pages owner.name next) (next_position codec world owner next)
  unfolding position
  next_position-Ready owner pages next page follows undone =
      let x = get_elem?-some next.items 0 (ground arith) in
      rw (is_refl owner.name)
        (record { sound = page; next = x.0; shows = x.1; follows = follows x.0 x.1 })

  accept_page-IsLooked :
      (owner : OwnerPosition) (pages : Pages) (calls : ℕ) (next : CursorOwnerPage)
      (refused : Option CursorError) {r : Refilled}
      → IsInStep codec last (pages owner.name) owner
      → blank (pages owner.name).next_cursor ≡ false
      → head_of (pages owner.name) owner ≡ none
      → IsPage codec next
      → accept_page codec world owner pages calls next refused ≡ ok r
      → IsLooked codec last owner pages r
  unfolding position
  accept_page-IsLooked owner pages calls next (some e) step more used page h = cc
  accept_page-IsLooked owner pages calls next none step more used page h =
      let a =
        else-ok
          (next.snapshot_ref differs owner.snapshot_ref
            || next.cursor differs (pages owner.name).next_cursor)
          _ _ h in
      let b =
        else-ok
          (out_of_order codec world (last_of (pages owner.name).items) (get_elem? next.items 0)) _ _
          a.1 in
      subst (IsLooked codec last owner pages) (ok-injective b.1) (record {
        ready = λ u.
            next_position-Ready owner pages next page
              (λ x e. first-follows (pages owner.name) owner x step more used (rw e at b.0));
        named = refl;
        elsewhere = λ n e. rw e refl;
      })

  exhausted-IsLooked :
      (frame : CursorFrame) (owner : OwnerPosition) (pages : Pages) (calls : ℕ) {r : Refilled}
      → IsInStep codec last (pages owner.name) owner
      → head_of (pages owner.name) owner ≡ none
      → exhausted codec world frame owner pages calls ≡ ok r
      → IsLooked codec last owner pages r
  exhausted-IsLooked frame owner pages calls step used h =
      elim (Bool-cases (blank (pages owner.name).next_cursor)) [
        | inl b ↦
            kept-IsLooked owner (finished owner) pages calls false refl (λ u o. cc) (rw b at h)
        | inr b ↦ elim (Bool-cases (leb 3 calls)) [
          | inl c ↦ kept-IsLooked owner owner pages calls true refl (λ u o. cc) (rw (b, c) at h)
          | inr c ↦
              bind-ok
                (read_page codec world calls frame.filters owner.name (pages owner.name).next_cursor
                  frame.publication_coverage)
                (else-ok (leb 200 owner.page_index) _ _ (rw (b, c) at h)).1
                (λ next p k.
                  accept_page-IsLooked owner pages (suc calls) next
                    (refused_publication codec world frame next owner.name) step b used
                    (read_page-IsPage codec world calls frame.filters owner.name
                      (pages owner.name).next_cursor frame.publication_coverage p)
                    k)
        ]
      ]

  refill_owner-IsLooked :
      (frame : CursorFrame) (owner : OwnerPosition) (pages : Pages) (calls : ℕ) {r : Refilled}
      → Fits codec last pages owner
      → refill_owner codec world frame owner pages calls ≡ ok r
      → IsLooked codec last owner pages r
  unfolding refill_owner
  refill_owner-IsLooked frame owner pages calls fits h = elim (Bool-cases owner.done) [
    | inl d ↦
        kept-IsLooked owner owner pages calls false refl (λ u o. cc) (if-true owner.done _ _ d h)
    | inr d ↦ elim (Bool-cases (ltb owner.offset (length (pages owner.name).items))) [
      | inl e ↦
          let step = fits d in
          let x = get_elem?-some (pages owner.name).items owner.offset e in
          kept-IsLooked owner owner pages calls false refl
            (λ u o. record {
              sound = step.sound;
              next = x.0;
              shows = x.1;
              follows = step.head x.0 x.1;
            })
            (rw e at (if-false owner.done _ _ d h))
      | inr e ↦
          exhausted-IsLooked frame owner pages calls (fits d)
            (get_elem?-none (pages owner.name).items owner.offset e)
            (rw e at (if-false owner.done _ _ d h))
    ]
  ]

  put_elsewhere-Fits :
      (name : String) (owners : List OwnerPosition) (pages changed : Pages)
      → ((n : String) → (n is name) ≡ false → changed n ≡ pages n)
      → Absent name (names owners)
      → All (Fits codec last pages) owners
      → All (Fits codec last changed) owners
  put_elsewhere-Fits name [] pages changed same absent fits = fits
  put_elsewhere-Fits name (owner ∷ rest) pages changed same absent fits = (
    λ d.
        subst (λ page. IsInStep codec last page owner)
          (sym (same owner.name (is_sym owner.name name ∙ absent.0))) (fits.0 d),
    put_elsewhere-Fits name rest pages changed same absent.1 fits.1,
  )

  -- What the pass leaves: unless it met an unknown item, each owner is done or ready; names and the
  -- pages of other names stay.
  pub record IsRefilled (owners : List OwnerPosition) (pages : Pages) (t : Heads) : Type 0 where
    pub ready : t.unknown ≡ false → All (Ready codec last t.pages) t.owners
    pub named : names t.owners ≡ names owners
    pub elsewhere : (n : String) → Absent n (names owners) → t.pages n ≡ pages n

  refilled-cons :
      (owner : OwnerPosition) (rest : List OwnerPosition) (pages : Pages) (r : Refilled) (s : Heads)
      → Absent owner.name (names rest)
      → IsLooked codec last owner pages r
      → r.unknown ≡ false
      → IsRefilled rest r.pages s
      → IsRefilled (owner ∷ rest) pages (record {
        owners = r.owner ∷ s.owners;
        pages = s.pages;
        calls = s.calls;
        unknown = s.unknown;
      })
  refilled-cons owner rest pages r s absent looked known refilled = record {
    ready = λ u. (
      λ d.
          subst (λ page. IsReady codec last page r.owner)
            (sym (
              ap s.pages looked.named
              ∙ refilled.elsewhere owner.name absent
              ∙ ap r.pages (sym looked.named)))
            (looked.ready known d),
      refilled.ready u,
    );
    named = cc (looked.named, refilled.named);
    elsewhere = λ n out. refilled.elsewhere n out.1 ∙ looked.elsewhere n out.0;
  }

  pub refill-IsRefilled :
      (frame : CursorFrame) (owners : List OwnerPosition) (pages : Pages) (calls : ℕ) {t : Heads}
      → Apart (names owners)
      → All (Fits codec last pages) owners
      → refill codec world frame owners pages calls ≡ ok t
      → IsRefilled owners pages t
  unfolding refill
  refill-IsRefilled frame [] pages calls apart fits h =
      subst (IsRefilled [] pages) (ok-injective h)
        (record { ready = λ u. tt; named = refl; elsewhere = λ n out. refl })
  refill-IsRefilled frame (owner ∷ rest) pages calls apart fits h =
      bind-ok (refill_owner codec world frame owner pages calls) h (λ r p k.
        let looked = refill_owner-IsLooked frame owner pages calls fits.0 p in
        elim (Bool-cases r.unknown) [
          | inl u ↦
              subst (IsRefilled (owner ∷ rest) pages) (ok-injective (if-true r.unknown _ _ u k))
                (record { ready = λ v. cc; named = refl; elsewhere = λ n out. refl })
          | inr u ↦
              bind-ok (refill codec world frame rest r.pages r.calls) (if-false r.unknown _ _ u k)
                (λ s q e. subst (IsRefilled (owner ∷ rest) pages) (ok-injective e) (
                  refilled-cons owner rest pages r s apart.0 looked u (
                    refill-IsRefilled frame rest r.pages r.calls apart.1
                      (put_elsewhere-Fits owner.name rest pages r.pages looked.elsewhere apart.0
                        fits.1)
                      q)))
        ])
