-- ===== src/Lib.antt =====
-- A model of the governed MCP server: how it authorizes a call, admits it against a budget, asks the
-- gateway and accounts for the outcome, also when the outcome stays unknown.
--
-- The parts and their files:
--   * Prelude: Booleans, lists, results, texts and attribute maps, and the integers with the wrap of
--     int64 (Prelude.Int).
--   * Orchestration: internal/orchestration and internal/statusview. Domain holds the value types,
--     Budget `AdmissionWindowBudget`, Ports the ports and the types of a call, Service `Service.Call`
--     as a function from the ports to the list of its requests and its answer, Status `Project`.
--   * Authorization: internal/authorization. Bundle and Constraints hold the policy and its
--     validation, Evaluate `evaluate`, Cache `Refresh` and `Authorize`. The compare-and-swap loop of
--     `Refresh` takes the list of the snapshots that other goroutines publish in between.
--   * Store: internal/adapter/postgres. Table and Schema are the tables; Reserve, Attempt, Recovery,
--     OwnerOutcome and Compensation are the transactions, each a function from the tables to the
--     new tables or an error, which rolls back. Ledger states what the counters of a window mean.
--     CursorTables and Cursors are the transactions on the incident cursors, DebtCache the repair of
--     the debt counters.
--   * Operational: internal/operational. Incidents is the order of incidents, Query the reading of a
--     query, Frames and Validity the cursor frames and their checks, Pages the decoding of an owner's
--     page, Reads the read of one, Refill and Compose the loops of `compose`, and Serve the two `Page`
--     operations with the finalizer of a publication.
--   * Recovery: internal/recovery. `RunOnce` on the store, with the owners and the database's answer to
--     an audit event as parameters.
--   * Evidence: internal/evidence, the entry of owner evidence and the request of a compensation.
--   * Claims: internal/trustedclaims, `Read`. Manifest: internal/manifest, `Validate` and `ToolEligible`.
--   * Examples: runs on concrete inputs.
--
-- How they interact: `Call` asks the authorization cache, then the store, then the gateway, and
-- tells the store the outcome; the worker ends the attempts whose outcome nobody told. The service
-- reaches the cache and the store through its ports, which are parameters of the model of `Call`.
-- A page of incidents loads a cursor, reads each owner again, composes the items and commits the
-- frame that follows; the store of the cursors is a parameter there and modelled in Store.
--
-- Bounds: a time is a number of nanoseconds. Sums that Go forms in int64 wrap; the columns of the
-- database are exact. Loops are recursions over lists, the retry of a reservation over its three
-- attempts, and the loop of `compose` over the items that the page still misses, of which each
-- round that goes on appends one; so nothing runs on fuel.
--
-- Not modelled: HTTP, JSON, digests, uuids and the Go runtime are parameters or left out; of the
-- store, sessions, retention and publication bookmarks; of the operational package,
-- the summary, the start of cursors and publications and the handlers; the kernel that registers
-- tools. Transactions of the store run one after the other, as their isolation and locks make them,
-- and an aborted one leaves no trace.
pub mod Prelude
pub mod Orchestration
pub mod Operational
pub mod Authorization
pub mod Claims
pub mod Manifest
pub mod Store
pub mod Recovery
pub mod Evidence
pub mod Examples
