-- ===== src/Store/Recovery.antt =====
-- A transaction of the maintenance worker in internal/adapter/postgres/store.go:
-- `MarkStaleAndClaim`, and what its rounds share with the transactions that end a doubt.
-- A round of a loop reads the window, the group and the reserved amounts of its attempt again,
-- where the source carries them from its select: no transaction changes these columns.
use ouf_mcp_server.Prelude.{
  ℕ, suc, ◌+◌, ◌-◌, String, Bool, true, false, not, ◌&&◌, ◌||◌, Option, none, some, List, [], ◌∷◌,
  ltb, ◌==◌, if◌then◌else◌, is_some, Result, ok, err, ◌>>=◌,
}
use ouf_mcp_server.Prelude.Int.{pos, ◌+ℤ◌, ◌-ℤ◌, ltb_ℤ}
use ouf_mcp_server.Orchestration.Domain.{Time, Duration, Uuid}
use ouf_mcp_server.Store.Table.{Table, find, modify, put}
use ouf_mcp_server.Store.Schema
use ouf_mcp_server.Store.Attempt.{is_admitted, is_not_dispatched}

abbrev pub is_running : Schema.AttemptState → Bool
is_running Schema.AttemptState.running = true
is_running _ = false

abbrev pub is_unknown : Schema.AttemptState → Bool
is_unknown Schema.AttemptState.unknown = true
is_unknown _ = false

abbrev is_dispatched : Schema.DispatchState → Bool
is_dispatched Schema.DispatchState.dispatched = true
is_dispatched _ = false

abbrev pub is_reserved : Schema.ReservationState → Bool
is_reserved Schema.ReservationState.reserved = true
is_reserved _ = false

abbrev pub in_doubt : Schema.ReservationState → Bool
in_doubt Schema.ReservationState.unknown = true
in_doubt _ = false

abbrev pub is_bound : Schema.IdempotencyClaim → Bool
is_bound c = elim c.state [ Schema.ClaimState.bound ↦ true | _ ↦ false ]

abbrev pub claim_in_doubt : Schema.IdempotencyClaim → Bool
claim_in_doubt c = elim c.state [ Schema.ClaimState.unknown ↦ true | _ ↦ false ]

-- `t < now`, where a null is no time.
abbrev pub past : Option Time → Time → Bool
past none now = false
past (some t) now = ltb t now

-- `t is null or t < now`.
abbrev pub free_at : Option Time → Time → Bool
free_at none now = true
free_at (some t) now = ltb t now

-- `order by time, attempt_id limit n`, of the rows that pass the test.
abbrev before : Time × Uuid → Time × Uuid → Bool
before (s, i) (t, j) = ltb s t || (s == t && ltb i j)

insert_ordered : Time × Uuid → List (Time × Uuid) → List (Time × Uuid)
insert_ordered x [] = x ∷ []
insert_ordered x (y ∷ ys) = if before x y then x ∷ y ∷ ys else y ∷ insert_ordered x ys

take_ids : ℕ → List (Time × Uuid) → List Uuid
take_ids ℕ.zero xs = []
take_ids (suc n) [] = []
take_ids (suc n) ((t, id) ∷ xs) = id ∷ take_ids n xs

ordered :
    (Uuid → Schema.ToolAttempt → Bool)
    → (Schema.ToolAttempt → Time)
    → Table Schema.ToolAttempt
    → List (Time × Uuid)
unfolding insert_ordered
ordered test time [] = []
ordered test time ((id, a) ∷ rest) =
    let later = ordered test time rest in
    if test id a then insert_ordered (time a, id) later else later

unfoldable pub select_ids :
    ℕ
    → (Uuid → Schema.ToolAttempt → Bool)
    → (Schema.ToolAttempt → Time)
    → Table Schema.ToolAttempt
    → List Uuid
unfolding take_ids ordered
select_ids limit test time attempts = take_ids limit (ordered test time attempts)

abbrev or_zero : Option Time → Time
or_zero none = 0
or_zero (some t) = t

-- The joins with the context and the reservation of the attempt.
abbrev pub is_governed : Schema.Db → Uuid → Bool
is_governed db id = is_some (find id db.contexts) && is_some (find id db.reservations)

-- A loop over the selected attempts; the first error ends the transaction.
unfoldable pub each : (Uuid → Schema.Db → Schema.Tx) → List Uuid → Schema.Db → Schema.Tx
each body [] db = ok db
each body (id ∷ ids) db = do db' ← body id db; each body ids db'

-- The reserved calls, bytes and objects leave the window.
abbrev pub release : Schema.Reservation → Schema.BudgetWindow → Schema.BudgetWindow
release r w = record w {
  reserved_tool_calls = w.reserved_tool_calls -ℤ r.reserved_tool_calls;
  reserved_result_bytes = w.reserved_result_bytes -ℤ r.reserved_result_bytes;
  reserved_distinct_objects = w.reserved_distinct_objects -ℤ r.reserved_distinct_objects_max;
}

abbrev pub complete_claim : Schema.IdempotencyClaim → Schema.IdempotencyClaim
complete_claim c = record c {
  state = Schema.ClaimState.completed;
  lock_version = suc c.lock_version;
}

abbrev pub not_started : Time → Schema.ToolAttempt → Schema.ToolAttempt
not_started now a = record a {
  state = Schema.AttemptState.failed;
  dispatch_state = Schema.DispatchState.not_dispatched;
  outcome_code = some "DISPATCH_NOT_STARTED";
  completed_at = some now;
  lock_version = suc a.lock_version;
}

abbrev pub release_reservation : Time → Schema.Reservation → Schema.Reservation
release_reservation now r = record r {
  state = Schema.ReservationState.released;
  actual_tool_calls = some (pos 0);
  actual_result_bytes = some (pos 0);
  reconciled_at = some now;
}

-- The statements of a round of the first loop, on the rows that it read.
unfoldable pub release_admission :
    Time
    → Uuid
    → Schema.AdmissionContext
    → Schema.Reservation
    → Schema.ToolAttempt
    → Schema.Db
    → Schema.Tx
unfolding modify Schema.update_window Schema.exec_one
release_admission now id c r a db = do
  db1 ← Schema.update_window c.budget_window_id (release r) db
  attempts ←
      Schema.exec_one id (λ b. is_admitted b.state && is_not_dispatched b.dispatch_state)
        (not_started now) db1.attempts
  reservations ←
      Schema.exec_one id (λ s. is_reserved s.state) (release_reservation now) db1.reservations
  claims ← Schema.exec_one id is_bound complete_claim db1.claims
  ok (record db1 {
    attempts = attempts;
    reservations = reservations;
    claims = claims;
    audit =
        record {
          event_type = "DISPATCH_NOT_STARTED";
          actor_type = "MAINTENANCE_WORKER";
          service_principal_id = a.service_principal_id;
          attempt_id = some id;
          manifest_checksum = a.manifest_checksum;
        }
        ∷ db1.audit;
  })

-- A round of the first loop: an admission that was never dispatched fails and is released.
unfoldable pub expire_admission : Time → Uuid → Schema.Db → Schema.Tx
unfolding find release_admission
expire_admission now id db = do
  c ← Schema.row (find id db.contexts)
  r ← Schema.row (find id db.reservations)
  a ← Schema.row (find id db.attempts)
  if not (is_admitted a.state) then ok db else release_admission now id c r a db

abbrev pub coalesce : Option Time → Time → Option Time
coalesce none now = some now
coalesce (some t) now = some t

abbrev pub lose_attempt : Time → Schema.ToolAttempt → Schema.ToolAttempt
lose_attempt now a = record a {
  state = Schema.AttemptState.unknown;
  dispatch_state = Schema.DispatchState.unknown;
  unknown_since = coalesce a.unknown_since now;
  lease_until = none;
  lock_version = suc a.lock_version;
}

abbrev pub block_guard : Schema.RetryGuard → Schema.RetryGuard
block_guard g = record g { blocking_attempts = suc g.blocking_attempts }

abbrev pub unblock_guard : Schema.RetryGuard → Schema.RetryGuard
unblock_guard g = record g { blocking_attempts = g.blocking_attempts - 1 }

-- The reserved objects of the attempt become debt of its window.
abbrev pub indebt : Schema.Reservation → Schema.BudgetWindow → Schema.BudgetWindow
indebt r w = record w {
  reserved_distinct_objects = w.reserved_distinct_objects -ℤ r.reserved_distinct_objects_max;
  current_unresolved_object_debt_total =
      w.current_unresolved_object_debt_total +ℤ r.reserved_distinct_objects_max;
}

abbrev pub doubt_reservation : Schema.Reservation → Schema.Reservation
doubt_reservation r = record r {
  state = Schema.ReservationState.unknown;
  actual_unresolved_object_debt_max = r.reserved_distinct_objects_max;
}

abbrev pub doubt_claim : Schema.IdempotencyClaim → Schema.IdempotencyClaim
doubt_claim c = record c { state = Schema.ClaimState.unknown; lock_version = suc c.lock_version }

abbrev pub new_debt : Schema.Reservation → Uuid → Schema.ObjectDebt
new_debt r window = record {
  budget_window_id = window;
  debt_amount = r.reserved_distinct_objects_max;
  state = Schema.DebtState.active;
  owner_evidence_ref = none;
}

-- `if stale.objects > 0`, the insert of the debt under its primary key.
unfoldable pub insert_debt : Uuid → Schema.Reservation → Uuid → Schema.Db → Schema.Tx
unfolding find
insert_debt id r window db =
    if not (ltb_ℤ (pos 0) r.reserved_distinct_objects_max)
    then ok db
    else if is_some (find id db.debts)
    then err Schema.unique_violation
    else ok (record db { debts = put id (new_debt r window) db.debts })

-- The statements of a round of the second loop, on the rows that it read.
unfoldable pub doubt_dispatch :
    Time → Uuid → Schema.AdmissionContext → Schema.Reservation → Schema.Db → Schema.Tx
unfolding modify Schema.update_window Schema.exec_one insert_debt
doubt_dispatch now id c r db = do
  attempts ← Schema.exec_one id (λ b. is_running b.state) (lose_attempt now) db.attempts
  guards ← Schema.exec_one c.equivalence_group_id (λ g. true) block_guard db.guards
  db1 ← Schema.update_window c.budget_window_id (indebt r) db
  db2 ← insert_debt id r c.budget_window_id db1
  reservations ← Schema.exec_one id (λ s. is_reserved s.state) doubt_reservation db2.reservations
  claims ← Schema.exec_one id is_bound doubt_claim db2.claims
  ok (record db2 {
    attempts = attempts;
    guards = guards;
    reservations = reservations;
    claims = claims;
  })

-- A round of the second loop: a dispatched attempt whose lease ran out is in doubt.
unfoldable pub expire_dispatch : Time → Uuid → Schema.Db → Schema.Tx
unfolding find doubt_dispatch
expire_dispatch now id db = do
  c ← Schema.row (find id db.contexts)
  r ← Schema.row (find id db.reservations)
  a ← Schema.row (find id db.attempts)
  if not (is_running a.state) || not (past a.lease_until now)
      then ok db
      else doubt_dispatch now id c r db

pub record Candidate : Type 0 where
  pub attempt_id : Uuid
  pub backend_request_id : String
  pub owner : String
  pub capability_id : String
  pub correlation_id : String

abbrev pub lease_attempt : String → Time → Schema.ToolAttempt → Schema.ToolAttempt
lease_attempt worker until a = record a {
  recovery_owner = some worker;
  recovery_lease_until = some until;
}

-- A round of the last loop: the worker leases an attempt in doubt.
unfoldable pub claim_attempt : String → Time → Uuid → Schema.Db → Schema.Tx
unfolding Schema.exec_one
claim_attempt worker until id db = do
  attempts ← Schema.exec_one id (λ a. is_unknown a.state) (lease_attempt worker until) db.attempts
  ok (record db { attempts = attempts })

-- A scanned row: a null request id does not scan into a string.
abbrev pub candidate_of :
    Uuid
    → Option Schema.ToolAttempt
    → Option Schema.AdmissionContext
    → Result Schema.StoreError (List Candidate)
    → Result Schema.StoreError (List Candidate)
candidate_of id (some a) (some c) rest = elim a.backend_request_id [
  | none ↦ err (Schema.database "null backend_request_id")
  | some backend ↦ do
    others ← rest
    ok (
        record {
          attempt_id = id;
          backend_request_id = backend;
          owner = c.owner;
          capability_id = a.capability_id;
          correlation_id = a.correlation_id;
        }
        ∷ others)
]
candidate_of id _ _ rest = rest

unfoldable pub candidates : Schema.Db → List Uuid → Result Schema.StoreError (List Candidate)
unfolding find
candidates db [] = ok []
candidates db (id ∷ ids) =
    candidate_of id (find id db.attempts) (find id db.contexts) (candidates db ids)

-- The three selects of the transaction.
unfoldable pub stale_admissions : ℕ → Time → Schema.Db → List Uuid
unfolding find select_ids
stale_admissions limit admitted_before db =
    select_ids limit
      (λ id a.
        is_admitted a.state
        && is_not_dispatched a.dispatch_state
        && ltb a.admitted_at admitted_before
        && is_governed db id)
      (λ a. a.admitted_at) db.attempts

unfoldable pub stale_dispatches : ℕ → Time → Schema.Db → List Uuid
unfolding find select_ids
stale_dispatches limit now db =
    select_ids limit
      (λ id a.
        is_running a.state
        && is_dispatched a.dispatch_state
        && past a.lease_until now
        && is_governed db id)
      (λ a. or_zero a.lease_until) db.attempts

unfoldable pub in_recovery : ℕ → Time → Schema.Db → List Uuid
unfolding find select_ids
in_recovery limit now db =
    select_ids limit
      (λ id a.
        is_unknown a.state && free_at a.recovery_lease_until now && is_some (find id db.contexts))
      (λ a. or_zero a.unknown_since) db.attempts

unfoldable pub mark_stale_and_claim :
    Time
    → Time
    → String
    → Duration
    → ℕ
    → Schema.Db
    → Result Schema.StoreError (List Candidate × Schema.Db)
unfolding stale_admissions stale_dispatches in_recovery each expire_admission expire_dispatch
    claim_attempt candidates
mark_stale_and_claim now admitted_before worker lease limit db = do
  db1 ← each (expire_admission now) (stale_admissions limit admitted_before db) db
  db2 ← each (expire_dispatch now) (stale_dispatches limit now db1) db1
  found ← candidates db2 (in_recovery limit now db2)
  db3 ← each (claim_attempt worker (now + lease)) (in_recovery limit now db2) db2
  ok (found, db3)
