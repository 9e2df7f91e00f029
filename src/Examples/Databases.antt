-- ===== src/Examples/Databases.antt =====
-- Transactions of the store on small tables: a reservation and its repetition, an entry of evidence, and
-- rounds of the worker.
use ouf_mcp_server.Prelude.{
  ℕ, Option, Bool, String, true, false, none, some, [], ◌∷◌, ◌≡◌, refl, Result, ok, err, ◌<◌, ◌↔◌,
}
use ouf_mcp_server.Prelude.Int.{pos, ◌-ℤ◌, ◌+ℤ◌, ltb_ℤ}
use ouf_mcp_server.Orchestration.Domain.{Cost, AdmissionRequest, AdmissionDecision, Uuid, minute}
use ouf_mcp_server.Orchestration.Budget.{admission_window_budget}
use ouf_mcp_server.Store.Table.{find}
use ouf_mcp_server.Store.Schema
use ouf_mcp_server.Store.Reserve.{FreshIds, reserve_once}
use ouf_mcp_server.Store.Reserve.Limits.{IsWithin, IsWindowOf, reserve_once-IsWithin}
use ouf_mcp_server.Store.Reserve.Groups.{reserve_once-guarded}
use ouf_mcp_server.Store.Reserve.Admission.{IsCounted, IsGroupOf}
use ouf_mcp_server.Store.Reserve.Rows.{new_attempt}
use ouf_mcp_server.Store.Ledger.{IsLedger}
use ouf_mcp_server.Store.Ledger.Histories.{reserve, Reach, start, then, empty_db, Reach-IsLedger}
use ouf_mcp_server.Store.Reserve.Retry.{Attempts, IsCommitted, IsRetried, reserve_iff}
use ouf_mcp_server.Store.Reserve.Retry
use ouf_mcp_server.Store.Attempt.{mark_running}
use ouf_mcp_server.Evidence.{TrustedIdentity, Input, Digests, EvidenceError, ingest}
use ouf_mcp_server.Recovery.{Worker, Owner, run_once}
use ouf_mcp_server.Examples.Policies.{alice}

abbrev admission : AdmissionRequest
admission = record {
  budget_profile = "";
  attempt_id = 11;
  identity = alice;
  capability_id = "search";
  owner = "catalog";
  operation_class = "READ";
  manifest_checksum = "m1";
  authorization_decision_ref = "main:3:search";
  idempotency_key = "k1";
  request_hash = "h1";
  semantic_fingerprint = "f1";
  fingerprint_version = "v1";
  correlation_id = "c1";
  window = pos minute;
  retry_threshold = pos 3;
  maximum = record { tool_calls = pos 1; distinct_objects = pos 0; result_bytes = pos 100 };
}

abbrev fresh : FreshIds
fresh = record { window = 1; group = 2; attempt = 3 }

abbrev db_of : Result Schema.StoreError (AdmissionDecision × Schema.Db) → Schema.Db
db_of (ok p) = p.1
db_of (err e) = empty_db

abbrev once : Schema.Db
once = db_of (reserve_once 1000 fresh admission empty_db)

abbrev admitted : AdmissionDecision
admitted = record { attempt_id = 11; lock_version = 0; replay = false }

abbrev replayed : AdmissionDecision
replayed = record { attempt_id = 11; lock_version = 0; replay = true }

once-reserved : reserve_once 1000 fresh admission empty_db ≡ ok (admitted, once)
unfolding reserve_once
once-reserved = refl

once-Reach : Reach empty_db once
unfolding find
once-Reach = then start (reserve 1000 fresh admission admitted empty_db once refl once-reserved)

Reach-IsLedger_example : IsLedger once
Reach-IsLedger_example = Reach-IsLedger once-Reach

reserve_once-IsWithin_example :
    (policy : String) × (window_maximum : Cost) × (r : Schema.Reservation)
    × (w : Schema.BudgetWindow) × (admission_window_budget admission ≡ ok (policy, window_maximum))
    × (find 11 once.reservations ≡ some r)
    × (r.reserved_tool_calls ≡ pos 1)
    × (r.reserved_result_bytes ≡ pos 100)
    × (find r.budget_window_id once.windows ≡ some w)
    × IsWindowOf admission policy 1000 w
    × IsWithin window_maximum w
unfolding find
reserve_once-IsWithin_example =
    reserve_once-IsWithin 1000 fresh admission empty_db tt (λ k w h. cc) refl refl once-reserved
      refl

reserve_once-guarded_example :
    (c : Schema.AdmissionContext) × (e : Schema.EquivalenceGroup) × (g : Schema.RetryGuard) × (find
        11 once.contexts
      ≡ some c)
    × (find c.equivalence_group_id once.groups ≡ some e)
    × IsGroupOf admission c.budget_window_id e
    × (find c.equivalence_group_id once.guards ≡ some g)
    × IsCounted (find c.equivalence_group_id empty_db.guards) g
    × (g.blocking_attempts ≡ 0)
    × (g.blocked ≡ false)
    × (ltb_ℤ (pos g.equivalent_attempts) (pos 3) ≡ true)
reserve_once-guarded_example =
    reserve_once-guarded 1000 fresh admission empty_db tt once-reserved refl

abbrev tx_db : Schema.Tx → Schema.Db
tx_db (ok db) = db
tx_db (err e) = empty_db

abbrev sent : Schema.Db
sent = tx_db (mark_running 1500 11 "b1" 100 0 once)

abbrev attempt_of : Option Schema.ToolAttempt → Schema.ToolAttempt
attempt_of (some a) = a
attempt_of none = new_attempt 0 admission

abbrev sent_attempt : Schema.ToolAttempt
sent_attempt = attempt_of (find 11 sent.attempts)

abbrev worker : Worker
worker = record {
  worker_id = "w1";
  lease = pos 60;
  admission_grace = pos 500;
  max_unknown_hold = pos 5000;
  batch = 10;
  audits = true;
  audit_error = λ id. none;
}

abbrev silent : Owner
silent q = none

abbrev helpful : Owner
helpful q = some (record {
  backend_request_id = "b1";
  outcome = "SUCCEEDED";
  outcome_code = "DONE";
  result_ref = "r1";
  actual_tool_calls = pos 1;
  actual_result_bytes = pos 50;
})

helped-counts :
    (run_once worker helpful 9000 9000 sent).counts
    ≡ record { claimed = 1; reconciled = 1; still_unknown = 0 }
unfolding run_once mark_running reserve_once find ◌-ℤ◌ ◌+ℤ◌
helped-counts = refl

-- The round fails the admission that nothing dispatched, and gives its calls and bytes back.
swept :
    find 1 (run_once worker silent 9000 9000 once).db.windows
    ≡ some (record {
      service_principal_id = "portal";
      principal_id = "alice";
      tenant_id = "acme";
      policy_ref = "m1";
      window_start = 0;
      window_end = 60000000000;
      reserved_tool_calls = pos 0;
      consumed_tool_calls = pos 0;
      reserved_result_bytes = pos 0;
      consumed_result_bytes = pos 0;
      reserved_distinct_objects = pos 0;
      consumed_distinct_objects = pos 0;
      current_unresolved_object_debt_total = pos 0;
      allowed_object_hash_versions = "v1" ∷ [];
    })
unfolding run_once reserve_once find ◌-ℤ◌
swept = refl

abbrev digests : Digests
digests = record {
  sort_strings = λ hs. hs;
  evidence_ref = λ owner id. 77;
  payload_hash = λ ref owner input. "hash";
}

abbrev catalog : TrustedIdentity
catalog = record {
  is_authenticated = true;
  service_principal_id = "catalog-service";
  backend_owner = "catalog";
}

abbrev outcome : Input
outcome = record {
  claimed_owner = "";
  backend_request_id = "b1";
  kind = "OWNER_RESULT";
  terminal_state = Schema.AttemptState.succeeded;
  outcome_code = "DONE";
  result_ref = "r1";
  actual_distinct_objects = pos 0;
  object_hashes = [];
}

abbrev entry_db : Result EvidenceError ((Uuid × Bool) × Schema.Db) → Schema.Db
entry_db (ok p) = p.1
entry_db (err e) = empty_db

abbrev entered : Schema.Db
entered = entry_db (ingest digests catalog outcome sent)

abbrev first_aborts : ℕ → Option Schema.StoreError
first_aborts ℕ.zero = some (Schema.StoreError.database "40001")
first_aborts (ℕ.suc n) = none

abbrev second_try : Attempts
second_try = record {
  now = λ n. 1000;
  fresh = λ n. fresh;
  aborts = first_aborts;
  times_out = λ n. false;
}

retried : Retry.reserve second_try admission empty_db ≡ ok (admitted, once)
unfolding Retry.reserve reserve_once
retried = refl

reserve_iff_example : (Retry.reserve second_try admission empty_db ≡ ok (admitted, once)) ↔ (
    (k : ℕ) × (k < 3)
    × IsCommitted second_try admission empty_db (admitted, once) k
    × ((j : ℕ) → j < k → IsRetried second_try admission empty_db j))
reserve_iff_example = reserve_iff second_try admission empty_db (admitted, once)
