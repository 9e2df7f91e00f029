-- ===== src/Evidence/Fit.antt =====
-- The checks of `owner_evidence_inbox`, which internal/adapter/postgres/evidence.go inserts into, in
-- plain words.
use ouf_mcp_server.Prelude.{
  String, Bool, true, false, not, ◌&&◌, ◌||◌, ◌≡◌, refl, sym, ◌∙◌, ◌⊎◌, inl, inr, &&-true, not-true,
  not-false, length, ◌==◌, ==_iff, Bool-cases, is→≡, ◌is◌, blank, is_some,
}
use ouf_mcp_server.Prelude.Int.{pos, eqb_ℤ}
use ouf_mcp_server.Orchestration.Domain.{Uuid}
use ouf_mcp_server.Store.Schema.{AttemptState}
use ouf_mcp_server.Store.OwnerOutcome.{nullif_blank}
use ouf_mcp_server.Store.Compensation.{Verified, is_terminal, is_failed, new_evidence, evidence_ok}

-- Evidence that the inbox takes: the attempt ended; a result names where it is, and a proof that
-- nothing was dispatched is a failure under its own code, without objects and without a result.
abbrev pub IsFit : Verified → Type 0
IsFit v =
    ((v.terminal_state ≡ AttemptState.succeeded) ⊎ (v.terminal_state ≡ AttemptState.failed))
    × (((v.kind ≡ "OWNER_RESULT") × (blank v.result_ref ≡ false))
        ⊎ ((v.kind ≡ "OWNER_PROVES_NO_DISPATCH")
            × (v.terminal_state ≡ AttemptState.failed)
            × (v.outcome_code ≡ "DISPATCH_NOT_STARTED")
            × (eqb_ℤ v.actual_distinct_objects (pos 0) ≡ true)
            × (length v.object_hashes ≡ 0)
            × (blank v.result_ref ≡ true)))

terminal-cases :
    (s : AttemptState)
    → is_terminal s ≡ true
    → (s ≡ AttemptState.succeeded) ⊎ (s ≡ AttemptState.failed)
terminal-cases AttemptState.succeeded h = inl refl
terminal-cases AttemptState.failed h = inr refl
terminal-cases _ h = cc

failed-only : (s : AttemptState) → is_failed s ≡ true → s ≡ AttemptState.failed
failed-only AttemptState.failed h = refl
failed-only _ h = cc

nullif-some : (s : String) → is_some (nullif_blank s) ≡ not (blank s)
nullif-some s = elim (Bool-cases (blank s)) [ inl e ↦ rw e refl | inr e ↦ rw e refl ]

-- The parts of the check of the inbox.
no_dispatch-parts :
    (v : Verified)
    → (is_failed v.terminal_state
        && v.outcome_code is "DISPATCH_NOT_STARTED"
        && eqb_ℤ v.actual_distinct_objects (pos 0)
        && length v.object_hashes == 0
        && not (is_some (nullif_blank v.result_ref)))
      ≡ true
    → (v.terminal_state ≡ AttemptState.failed)
      × (v.outcome_code ≡ "DISPATCH_NOT_STARTED")
      × (eqb_ℤ v.actual_distinct_objects (pos 0) ≡ true)
      × (length v.object_hashes ≡ 0)
      × (blank v.result_ref ≡ true)
no_dispatch-parts v h =
    let (abcd, e) = &&-true _ _ h in
    let (abc, d) = &&-true _ _ abcd in
    let (ab, c) = &&-true _ _ abc in
    let (a, b) = &&-true _ _ ab in
    (
      failed-only v.terminal_state a,
      is→≡ v.outcome_code "DISPATCH_NOT_STARTED" b,
      c,
      (==_iff (length v.object_hashes) 0).0 d,
      not-false (blank v.result_ref) (sym (nullif-some v.result_ref) ∙ not-true _ e),
    )

implied : (a b : Bool) → (not a || b) ≡ true → a ≡ true → b ≡ true
implied true b h e = h
implied false b h e = cc

other_of : (a b : Bool) → (a || b) ≡ true → a ≡ false → b ≡ true
other_of true b h e = cc
other_of false b h e = h

pub evidence_ok-IsFit :
    (v : Verified) (id window : Uuid) → evidence_ok (new_evidence v id window) ≡ true → IsFit v
unfolding evidence_ok
evidence_ok-IsFit v id window h =
    let (abcd, e) = &&-true _ _ h in
    let (abc, d) = &&-true _ _ abcd in
    let (ab, c) = &&-true _ _ abc in
    let (a, b) = &&-true _ _ ab in
    (
      terminal-cases v.terminal_state b,
      elim (Bool-cases (v.kind is "OWNER_RESULT")) [
        | inl result ↦ inl (
          is→≡ v.kind "OWNER_RESULT" result,
          not-true (blank v.result_ref) (sym (nullif-some v.result_ref) ∙ implied _ _ e result),
        )
        | inr other ↦
            let proof : (v.kind is "OWNER_PROVES_NO_DISPATCH") ≡ true = other_of _ _ a other in
            let (failed, code, objects, hashes, no_result) =
              no_dispatch-parts v (implied _ _ d proof) in
            inr (
              is→≡ v.kind "OWNER_PROVES_NO_DISPATCH" proof,
              failed,
              code,
              objects,
              hashes,
              no_result,
            )
      ],
    )
