-- ===== src/Store/Ledger/Histories.antt =====
-- The transactions of the store one after the other, from empty tables: `Reserve`, `Dispatch`,
-- `Reconcile`, `MarkStaleAndClaim`, `ApplyOwnerEvidence` and `ExpireUnknown`, in any order, with any
-- arguments. A transaction that fails leaves the tables.
use ouf_mcp_server.Prelude.{ℕ, String, none, some, List, [], ◌≡◌, refl, ok}
use ouf_mcp_server.Orchestration.Domain.{
  Cost, AdmissionRequest, AdmissionDecision, AttemptOutcome, Time, Duration, Uuid,
}
use ouf_mcp_server.Store.Table.{find, total}
use ouf_mcp_server.Store.Schema
use ouf_mcp_server.Store.Reserve.{FreshIds, reserve_once}
use ouf_mcp_server.Store.Attempt.{mark_running, reconcile}
use ouf_mcp_server.Store.Recovery.{Candidate, mark_stale_and_claim}
use ouf_mcp_server.Store.OwnerOutcome.{OwnerAnswer, apply_owner_evidence, expire_unknown}
use ouf_mcp_server.Store.Ledger.{IsLedger}
use ouf_mcp_server.Store.Ledger.Attempts.{IsSettleable, mark_running-IsLedger, reconcile-IsLedger}
use ouf_mcp_server.Store.Ledger.Worker.{mark_stale_and_claim-IsLedger}
use ouf_mcp_server.Store.Ledger.Doubts.{apply_owner_evidence-IsLedger, expire_unknown-IsLedger}
use ouf_mcp_server.Store.Ledger.Reservations.{reserve_once-IsLedger}

-- A transaction that commits. A new window takes a new id, and `Reconcile` finds its reservation
-- held or settled.
pub data Step : Schema.Db → Schema.Db → Type 0 where
  reserve :
      (now : Time) (fresh : FreshIds) (request : AdmissionRequest) (d : AdmissionDecision)
      (db db' : Schema.Db)
      → find fresh.window db.windows ≡ none
      → reserve_once now fresh request db ≡ ok (d, db')
      → Step db db'
  dispatch :
      (now : Time) (id : Uuid) (backend : String) (lease : Duration) (expected : ℕ)
      (db db' : Schema.Db)
      → mark_running now id backend lease expected db ≡ ok db'
      → Step db db'
  settle :
      (now : Time) (id : Uuid) (actual : Cost) (outcome : AttemptOutcome) (db db' : Schema.Db)
      → ((r : Schema.Reservation) → find id db.reservations ≡ some r → IsSettleable r.state)
      → reconcile now id actual outcome db ≡ ok db'
      → Step db db'
  sweep :
      (now admitted_before : Time) (worker : String) (lease : Duration) (limit : ℕ)
      (found : List Candidate) (db db' : Schema.Db)
      → mark_stale_and_claim now admitted_before worker lease limit db ≡ ok (found, db')
      → Step db db'
  answer :
      (now : Time) (id : Uuid) (worker : String) (a : OwnerAnswer) (db db' : Schema.Db)
      → apply_owner_evidence now id worker a db ≡ ok db'
      → Step db db'
  expire :
      (now unknown_before : Time) (limit : ℕ) (db db' : Schema.Db)
      → expire_unknown now unknown_before limit db ≡ ok db'
      → Step db db'

pub data Reach (db : Schema.Db) : Schema.Db → Type 0 where
  start : Reach db db
  then : {x y : Schema.Db} → Reach db x → Step x y → Reach db y

abbrev pub empty_db : Schema.Db
empty_db = record {
  attempts = [];
  windows = [];
  groups = [];
  guards = [];
  claims = [];
  contexts = [];
  reservations = [];
  debts = [];
  inbox = [];
  distinct_objects = [];
  adjustments = [];
  incidents = [];
  audit = [];
}

pub empty_db-IsLedger : IsLedger empty_db
unfolding total find
empty_db-IsLedger = record {
  calls = λ k. refl;
  bytes = λ k. refl;
  objects = λ k. refl;
  debt = λ k. refl;
  one_window = λ id c r hc hr. cc;
  window_there = λ id r hr. cc;
  objects_nonneg = λ id r hr. cc;
}

Step-IsLedger : {x y : Schema.Db} → IsLedger x → Step x y → IsLedger y
Step-IsLedger ledger (reserve now fresh request d x y absent h) =
    reserve_once-IsLedger now fresh request x ledger absent h
Step-IsLedger ledger (dispatch now id backend lease expected x y h) =
    mark_running-IsLedger now id backend lease expected x ledger h
Step-IsLedger ledger (settle now id actual outcome x y settleable h) =
    reconcile-IsLedger now id actual outcome x ledger settleable h
Step-IsLedger ledger (sweep now admitted_before worker lease limit found x y h) =
    mark_stale_and_claim-IsLedger now admitted_before worker lease limit x ledger h
Step-IsLedger ledger (answer now id worker a x y h) =
    apply_owner_evidence-IsLedger now id worker a x ledger h
Step-IsLedger ledger (expire now unknown_before limit x y h) =
    expire_unknown-IsLedger now unknown_before limit x ledger h

-- In every state that these transactions reach from empty tables, the counters of every window
-- are the sums over the reservations and the debts.
pub Reach-IsLedger : {db : Schema.Db} → Reach empty_db db → IsLedger db
Reach-IsLedger start = empty_db-IsLedger
Reach-IsLedger (then before step) = Step-IsLedger (Reach-IsLedger before) step
