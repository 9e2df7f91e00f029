-- ===== src/Store/Compensation/Late.antt =====
-- `LateCompensate` of internal/adapter/postgres/evidence.go.
use ouf_mcp_server.Prelude.{
  ℕ, suc, String, Bool, true, false, not, ◌&&◌, ◌||◌, Option, none, some, List, [], ◌∷◌, ◌==◌,
  if◌then◌else◌, ◌is◌, ◌differs◌, blank, Result, ok, err, ◌>>=◌,
}
use ouf_mcp_server.Prelude.Int.{ℤ, pos, ◌+ℤ◌, ◌-ℤ◌, ltb_ℤ, leb_ℤ}
use ouf_mcp_server.Orchestration.Domain.{Time, Uuid}
use ouf_mcp_server.Store.Table.{find, modify}
use ouf_mcp_server.Store.Schema
use ouf_mcp_server.Store.Recovery.{
  is_unknown, in_doubt, claim_in_doubt, complete_claim, unblock_guard,
}
use ouf_mcp_server.Store.OwnerOutcome.{is_blocking, end_reservation}
use ouf_mcp_server.Store.Compensation.{
  Hashes, CompensationResult, Disposition, rejected_scope, rejected_binding,
  committed_domain_violation, compensated, used, is_verified, set_evidence, add_incident,
  quarantine, unique, violation, insert_objects, answer,
}

abbrev pub Answer : Type 0
Answer = Result Schema.StoreError (CompensationResult × Schema.Db)

abbrev pub is_open : Schema.AttemptState → Bool
is_open Schema.AttemptState.unknown = true
is_open Schema.AttemptState.unresolved = true
is_open _ = false

abbrev coalesce : Option Time → Time → Option Time
coalesce none now = some now
coalesce (some t) now = some t

-- The rows that the transaction has read when its checks begin.
pub record Case : Type 0 where
  pub id : Uuid
  pub ref : Uuid
  pub expected_revision : ℕ
  pub context : Schema.AdmissionContext
  pub window : Schema.BudgetWindow
  pub attempt : Schema.ToolAttempt
  pub backend : String
  pub reservation : Schema.Reservation
  pub debt : ℤ
  pub evidence : Schema.OwnerEvidence

-- Every outcome ends the attempt and counts one revision.
abbrev pub revise :
    Time
    → Schema.AttemptState
    → Schema.DispatchState
    → String
    → Schema.OwnerEvidence
    → Schema.ToolAttempt
    → Schema.ToolAttempt
revise now state dispatch code e a = record a {
  state = state;
  dispatch_state = dispatch;
  outcome_code = some code;
  result_ref = e.result_ref;
  completed_at = coalesce a.completed_at now;
  outcome_revision = suc a.outcome_revision;
  lock_version = suc a.lock_version;
}

abbrev pub revisable : ℕ → Schema.ToolAttempt → Bool
revisable expected a = a.outcome_revision == expected && is_open a.state

abbrev result_of : Case → Disposition → Schema.AttemptState → String → CompensationResult
result_of k disposition state code = record {
  disposition = disposition;
  attempt_state = state;
  outcome_code = code;
  outcome_revision = suc k.expected_revision;
}

unfoldable pub reject_evidence : Time → Case → String → Schema.Db → Answer
unfolding Schema.exec_one quarantine
reject_evidence now k code db = do
  attempts ←
      Schema.exec_one k.id (revisable k.expected_revision)
        (revise now Schema.AttemptState.failed Schema.DispatchState.acknowledged code k.evidence)
        db.attempts
  db' ←
      quarantine k.id k.ref k.evidence.evidence_payload_hash code "AUTHORITATIVE_EVIDENCE_REJECTED"
        (record db { attempts = attempts })
  ok (result_of k committed_domain_violation Schema.AttemptState.failed code, db')

abbrev pub resolve_debt : Uuid → Schema.ObjectDebt → Schema.ObjectDebt
resolve_debt ref d = record d { state = Schema.DebtState.resolved; owner_evidence_ref = some ref }

abbrev pub active_at : Uuid → Schema.ObjectDebt → Bool
active_at window d = elim d.state [
  | Schema.DebtState.active ↦ d.budget_window_id == window
  | Schema.DebtState.resolved ↦ false
]

-- The debt of the attempt leaves the window, and the objects that are new to it are consumed.
abbrev pub repay : ℤ → ℤ → Schema.BudgetWindow → Schema.BudgetWindow
repay inserted debt w = record w {
  consumed_distinct_objects = w.consumed_distinct_objects +ℤ inserted;
  current_unresolved_object_debt_total = w.current_unresolved_object_debt_total -ℤ debt;
}

abbrev pub covers : ℤ → Schema.BudgetWindow → Bool
covers debt w = leb_ℤ debt w.current_unresolved_object_debt_total

abbrev pub unreserve : Schema.Reservation → Schema.BudgetWindow → Schema.BudgetWindow
unreserve r w = record w {
  reserved_tool_calls = w.reserved_tool_calls -ℤ r.reserved_tool_calls;
  reserved_result_bytes = w.reserved_result_bytes -ℤ r.reserved_result_bytes;
}

-- `if state == "UNKNOWN"`: only a proof that nothing was dispatched ends a doubt here.
unfoldable pub release_doubt : Time → Case → Schema.Db → Schema.Tx
unfolding find modify Schema.exec_one Schema.update_window
release_doubt now k db =
    if not (is_unknown k.attempt.state)
    then ok db
    else if k.evidence.evidence_kind differs "OWNER_PROVES_NO_DISPATCH"
        || not (in_doubt k.reservation.state)
    then err Schema.no_dispatch_proof_required
    else do
      windows ←
          Schema.exec_one k.context.budget_window_id (λ w. true) (unreserve k.reservation)
            db.windows
      reservations ←
          Schema.exec_one k.id (λ s. in_doubt s.state)
            (end_reservation now Schema.ReservationState.released (pos 0) (pos 0)) db.reservations
      claims ← Schema.exec_one k.id claim_in_doubt complete_claim db.claims
      ok (record db { windows = windows; reservations = reservations; claims = claims })

same_adjustment : Schema.BudgetAdjustment → List Schema.BudgetAdjustment → Bool
same_adjustment b [] = false
same_adjustment b (c ∷ rest) =
    c.adjustment_key is b.adjustment_key
    || c.owner_evidence_ref == b.owner_evidence_ref
    || (c.attempt_id == b.attempt_id && c.new_outcome_revision == b.new_outcome_revision)
    || same_adjustment b rest

unfoldable pub insert_adjustment : Schema.BudgetAdjustment → Schema.Db → Schema.Tx
unfolding same_adjustment
insert_adjustment b db =
    if same_adjustment b db.adjustments
    then err Schema.unique_violation
    else if ltb_ℤ b.distinct_object_delta (pos 0)
        || ltb_ℤ (pos 0) b.unresolved_debt_delta
        || ltb_ℤ (pos 0) (b.distinct_object_delta +ℤ b.unresolved_debt_delta)
    then err Schema.check_violation
    else ok (record db { adjustments = b ∷ db.adjustments })

-- The evidence is fit: its objects are counted, the debt is repaid, the group is unblocked.
unfoldable pub compensate : Time → Case → Schema.Db → Answer
unfolding Schema.exec_one unique insert_objects release_doubt insert_adjustment
compensate now k db = do
  let window = k.context.budget_window_id
  let (inserted, objects) =
      insert_objects window (unique k.evidence.object_hashes) db.distinct_objects
  debts ← Schema.exec_one k.id (active_at window) (resolve_debt k.ref) db.debts
  windows ← Schema.exec_one window (λ w. covers k.debt w) (repay (pos inserted) k.debt) db.windows
  guards ← Schema.exec_one k.context.equivalence_group_id is_blocking unblock_guard db.guards
  db1 ←
      release_doubt now k (record db {
        distinct_objects = objects;
        debts = debts;
        windows = windows;
        guards = guards;
      })
  db2 ←
      insert_adjustment
        (record {
          adjustment_key = k.evidence.evidence_payload_hash;
          budget_window_id = window;
          attempt_id = k.id;
          owner_evidence_ref = k.ref;
          prior_outcome_revision = k.expected_revision;
          new_outcome_revision = suc k.expected_revision;
          distinct_object_delta = pos inserted;
          unresolved_debt_delta = pos 0 -ℤ k.debt;
        })
        db1
  attempts ←
      Schema.exec_one k.id (revisable k.expected_revision)
        (revise now k.evidence.terminal_state
          (if k.evidence.evidence_kind is "OWNER_PROVES_NO_DISPATCH"
            then Schema.DispatchState.not_dispatched
            else Schema.DispatchState.acknowledged)
          k.evidence.terminal_outcome_code k.evidence)
        db2.attempts
  inbox ← Schema.exec_one k.ref is_verified (set_evidence Schema.EvidenceState.consumed) db2.inbox
  ok (
    result_of k compensated k.evidence.terminal_state k.evidence.terminal_outcome_code,
    record db2 { attempts = attempts; inbox = inbox },
  )

abbrev misbound : Case → Bool
misbound k =
    not (k.evidence.budget_window_id == k.context.budget_window_id)
    || k.evidence.backend_owner differs k.context.owner
    || k.backend differs k.evidence.backend_request_id

-- The checks on the evidence, in the order of the source.
unfoldable pub judge : Hashes → Time → Case → Schema.Db → Answer
unfolding add_incident quarantine violation reject_evidence compensate
judge hashes now k db = elim (used k.evidence.evidence_state) [
  | some disposition ↦ answer disposition k.attempt db
  | none ↦
      if not (k.evidence.attempt_id == k.id)
      then answer rejected_scope k.attempt (
          add_incident
            (record {
              attempt_id = k.evidence.attempt_id;
              evidence_ref = k.ref;
              category = "EVIDENCE_SCOPE_VIOLATION";
              detail_code = "CALLER_ATTEMPT_MISMATCH";
              evidence_payload_hash = k.evidence.evidence_payload_hash;
            })
            db)
      else if misbound k
      then (do
        db' ←
            quarantine k.id k.ref k.evidence.evidence_payload_hash "EVIDENCE_BINDING_VIOLATION"
              "OWNER_OR_REQUEST_BINDING_MISMATCH" db
        answer rejected_binding k.attempt db')
      else let code = violation hashes k.window.allowed_object_hash_versions k.debt k.evidence in
        if blank code then compensate now k db else reject_evidence now k code db
]

active_debt : Uuid → Option Schema.ObjectDebt → Option ℤ
active_debt window none = none
active_debt window (some d) = if active_at window d then some d.debt_amount else none

-- The reads below the preliminary check.
unfoldable pub open_case :
    Hashes → Time → Uuid → Uuid → ℕ → Schema.OwnerEvidence → Schema.Db → Answer
unfolding find active_debt judge
open_case hashes now id ref expected e db = do
  c ← Schema.row (find id db.contexts)
  w ← Schema.row (find c.budget_window_id db.windows)
  a ← Schema.row (find id db.attempts)
  backend ← Schema.text_column a.backend_request_id
  if not (a.outcome_revision == expected) || not (is_open a.state)
      then err Schema.revision_mismatch
      else do
        r ← Schema.row (find id db.reservations)
        debt ← Schema.row (active_debt c.budget_window_id (find id db.debts))
        judge hashes now
            (record {
              id = id;
              ref = ref;
              expected_revision = expected;
              context = c;
              window = w;
              attempt = a;
              backend = backend;
              reservation = r;
              debt = debt;
              evidence = e;
            })
            db

abbrev preliminary : Uuid → Schema.OwnerEvidence → Option Disposition
preliminary id e = if e.attempt_id == id then used e.evidence_state else none

unfoldable pub late_compensate : Hashes → Time → Uuid → Uuid → ℕ → Schema.Db → Answer
unfolding find open_case
late_compensate hashes now id ref expected db = do
  e ← Schema.row (find ref db.inbox)
  elim (preliminary id e) [
    | some disposition ↦ do a ← Schema.row (find id db.attempts); answer disposition a db
    | none ↦ open_case hashes now id ref expected e db
  ]
