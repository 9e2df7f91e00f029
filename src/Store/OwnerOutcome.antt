-- ===== src/Store/OwnerOutcome.antt =====
-- `ApplyOwnerEvidence` of internal/adapter/postgres/store.go and `ExpireUnknown` of
-- internal/adapter/postgres/evidence.go: the two ways by which the worker ends a doubt.
use ouf_mcp_server.Prelude.{
  ℕ, suc, String, Bool, false, not, ◌&&◌, ◌||◌, Option, none, some, List, ltb, if◌then◌else◌,
  is_some, ◌is◌, ◌differs◌, blank, ok, err, ◌>>=◌,
}
use ouf_mcp_server.Prelude.Int.{ℤ, pos, ◌+ℤ◌, ◌-ℤ◌, ltb_ℤ}
use ouf_mcp_server.Orchestration.Domain.{Time, Uuid}
use ouf_mcp_server.Store.Table.{find, modify}
use ouf_mcp_server.Store.Schema
use ouf_mcp_server.Store.Recovery.{
  is_unknown, in_doubt, claim_in_doubt, complete_claim, unblock_guard, past, free_at, select_ids,
  each,
}

-- `recovery.OwnerEvidence`
pub record OwnerAnswer : Type 0 where
  pub backend_request_id : String
  pub outcome : String
  pub outcome_code : String
  pub result_ref : String
  pub actual_tool_calls : ℤ
  pub actual_result_bytes : ℤ

-- `x = $2`, where a null equals nothing.
abbrev pub equals : Option String → String → Bool
equals none s = false
equals (some t) s = t is s

-- `coalesce(recovery_owner, '')`.
abbrev pub text : Option String → String
text none = ""
text (some s) = s

-- `nullif(s, '')`.
abbrev pub nullif_blank : String → Option String
nullif_blank s = if blank s then none else some s

abbrev pub unclaim : Schema.ToolAttempt → Schema.ToolAttempt
unclaim a = record a { recovery_owner = none; recovery_lease_until = none }

-- What the answer makes of the attempt and of its reservation.
pub record Final : Type 0 where
  pub state : Schema.AttemptState
  pub dispatch_state : Schema.DispatchState
  pub reservation_state : Schema.ReservationState
  pub consumed_calls : ℤ
  pub consumed_bytes : ℤ

unfoldable pub final : OwnerAnswer → Final
final answer =
    if answer.outcome is "NOT_DISPATCHED"
    then record {
      state = Schema.AttemptState.failed;
      dispatch_state = Schema.DispatchState.not_dispatched;
      reservation_state = Schema.ReservationState.released;
      consumed_calls = pos 0;
      consumed_bytes = pos 0;
    }
    else record {
      state =
          if answer.outcome is "SUCCEEDED"
          then Schema.AttemptState.succeeded
          else Schema.AttemptState.failed;
      dispatch_state = Schema.DispatchState.acknowledged;
      reservation_state = Schema.ReservationState.reconciled;
      consumed_calls = answer.actual_tool_calls;
      consumed_bytes = answer.actual_result_bytes;
    }

-- Calls and bytes leave the reserved and join the consumed ones. The objects of the reservation
-- have left the reserved ones when the doubt began.
abbrev pub consume : Schema.Reservation → ℤ → ℤ → Schema.BudgetWindow → Schema.BudgetWindow
consume r calls bytes w = record w {
  reserved_tool_calls = w.reserved_tool_calls -ℤ r.reserved_tool_calls;
  reserved_result_bytes = w.reserved_result_bytes -ℤ r.reserved_result_bytes;
  consumed_tool_calls = w.consumed_tool_calls +ℤ calls;
  consumed_result_bytes = w.consumed_result_bytes +ℤ bytes;
}

abbrev pub end_attempt : Time → Final → OwnerAnswer → Schema.ToolAttempt → Schema.ToolAttempt
end_attempt now f answer a = record a {
  state = f.state;
  dispatch_state = f.dispatch_state;
  outcome_code = some answer.outcome_code;
  result_ref = nullif_blank answer.result_ref;
  completed_at = some now;
  recovery_owner = none;
  recovery_lease_until = none;
  lock_version = suc a.lock_version;
}

abbrev pub end_reservation :
    Time → Schema.ReservationState → ℤ → ℤ → Schema.Reservation → Schema.Reservation
end_reservation now state calls bytes r = record r {
  state = state;
  actual_tool_calls = some calls;
  actual_result_bytes = some bytes;
  actual_distinct_objects = some (pos 0);
  reconciled_at = some now;
}

abbrev pub is_blocking : Schema.RetryGuard → Bool
is_blocking g = ltb 0 g.blocking_attempts

-- The five writes of a final answer.
unfoldable pub end_doubt :
    Time
    → Uuid
    → String
    → OwnerAnswer
    → Schema.AdmissionContext
    → Schema.Reservation
    → Schema.Db
    → Schema.Tx
unfolding modify final Schema.update_window Schema.exec_one
end_doubt now id worker answer c r db = do
  let f = final answer
  db1 ← Schema.update_window c.budget_window_id (consume r f.consumed_calls f.consumed_bytes) db
  guards ← Schema.exec_one c.equivalence_group_id is_blocking unblock_guard db1.guards
  attempts ←
      Schema.exec_one id (λ a. equals a.recovery_owner worker && is_unknown a.state)
        (end_attempt now f answer) db1.attempts
  reservations ←
      Schema.exec_one id (λ s. in_doubt s.state)
        (end_reservation now f.reservation_state f.consumed_calls f.consumed_bytes) db1.reservations
  claims ← Schema.exec_one id claim_in_doubt complete_claim db1.claims
  ok (record db1 {
    guards = guards;
    attempts = attempts;
    reservations = reservations;
    claims = claims;
  })

abbrev pub is_over : Schema.Reservation → OwnerAnswer → Bool
is_over r answer =
    ltb_ℤ answer.actual_tool_calls (pos 0)
    || ltb_ℤ answer.actual_result_bytes (pos 0)
    || ltb_ℤ r.reserved_tool_calls answer.actual_tool_calls
    || ltb_ℤ r.reserved_result_bytes answer.actual_result_bytes

-- The final answer: the guards on the reservation, then the writes.
unfoldable pub settle_doubt :
    Time → Uuid → String → OwnerAnswer → Schema.AdmissionContext → Schema.Db → Schema.Tx
unfolding find end_doubt
settle_doubt now id worker answer c db = do
  r ← Schema.row (find id db.reservations)
  if not (in_doubt r.state)
      then err Schema.reservation_not_unknown
      else if is_over r answer
      then err Schema.cost_exceeds_reservation
      else if ltb_ℤ (pos 0) r.reserved_distinct_objects_max
      then err Schema.object_evidence_required
      else end_doubt now id worker answer c r db

-- The attempt is leased by another worker, or the answer is about another request.
abbrev pub is_foreign : String → OwnerAnswer → Schema.ToolAttempt → String → Bool
is_foreign worker answer a backend =
    text a.recovery_owner differs worker || backend differs answer.backend_request_id

unfoldable pub apply_owner_evidence : Time → Uuid → String → OwnerAnswer → Schema.Db → Schema.Tx
unfolding find Schema.exec_one settle_doubt
apply_owner_evidence now id worker answer db = do
  c ← Schema.row (find id db.contexts)
  a ← Schema.row (find id db.attempts)
  backend ← Schema.text_column a.backend_request_id
  if not (is_unknown a.state)
      then ok db
      else if is_foreign worker answer a backend
      then err Schema.invalid_owner_evidence
      else if answer.outcome is "UNKNOWN"
      then (do
        attempts ←
            Schema.exec_one id (λ b. equals b.recovery_owner worker && is_unknown b.state) unclaim
              db.attempts
        ok (record db { attempts = attempts }))
      else settle_doubt now id worker answer c db

abbrev pub hold_expired : Time → Schema.ToolAttempt → Schema.ToolAttempt
hold_expired now a = record a {
  state = Schema.AttemptState.unresolved;
  outcome_code = some "MAX_UNKNOWN_HOLD";
  completed_at = some now;
  recovery_owner = none;
  recovery_lease_until = none;
  lock_version = suc a.lock_version;
}

-- The reserved calls and bytes count as consumed, the debt stays.
unfoldable pub forget_doubt :
    Time → Uuid → Schema.AdmissionContext → Schema.Reservation → Schema.Db → Schema.Tx
unfolding modify Schema.update_window Schema.exec_one
forget_doubt now id c r db = do
  db1 ←
      Schema.update_window c.budget_window_id
        (consume r r.reserved_tool_calls r.reserved_result_bytes) db
  reservations ←
      Schema.exec_one id (λ s. in_doubt s.state)
        (λ s.
          end_reservation now Schema.ReservationState.reconciled s.reserved_tool_calls
            s.reserved_result_bytes s)
        db1.reservations
  claims ← Schema.exec_one id claim_in_doubt complete_claim db1.claims
  attempts ← Schema.exec_one id (λ b. is_unknown b.state) (hold_expired now) db1.attempts
  ok (record db1 { reservations = reservations; claims = claims; attempts = attempts })

-- A round of `ExpireUnknown`.
unfoldable pub expire_hold : Time → Uuid → Schema.Db → Schema.Tx
unfolding find forget_doubt
expire_hold now id db = do
  c ← Schema.row (find id db.contexts)
  a ← Schema.row (find id db.attempts)
  if not (is_unknown a.state) then ok db else do
    r ← Schema.row (find id db.reservations)
    if not (in_doubt r.state)
        then err Schema.reservation_not_unknown
        else forget_doubt now id c r db

abbrev or_zero : Option Time → Time
or_zero none = 0
or_zero (some t) = t

unfoldable pub long_unknown : ℕ → Time → Time → Schema.Db → List Uuid
unfolding find select_ids
long_unknown limit now unknown_before db =
    select_ids limit
      (λ id a.
        is_unknown a.state
        && past a.unknown_since unknown_before
        && free_at a.recovery_lease_until now
        && is_some (find id db.contexts))
      (λ a. or_zero a.unknown_since) db.attempts

unfoldable pub expire_unknown : Time → Time → ℕ → Schema.Db → Schema.Tx
unfolding long_unknown each expire_hold
expire_unknown now unknown_before limit db =
    each (expire_hold now) (long_unknown limit now unknown_before db) db
