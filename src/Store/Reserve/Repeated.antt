-- ===== src/Store/Reserve/Repeated.antt =====
-- A call of `Store.Reserve` of internal/adapter/postgres/store.go that is repeated under its key.
use ouf_mcp_server.Prelude.{true, some, [], ◌∷◌, ◌≡◌, Result, ok, err}
use ouf_mcp_server.Orchestration.Domain.{AdmissionRequest, AdmissionDecision, Uuid}
use ouf_mcp_server.Store.Table.{Table, search_row}
use ouf_mcp_server.Store.Schema
use ouf_mcp_server.Store.Schema.{AttemptState, StoreError}
use ouf_mcp_server.Store.Reserve.{claims_request, attempt_id, replay}

-- The same claims, of which any may have another state and version.
abbrev pub KeepsClaims : Table Schema.IdempotencyClaim → Table Schema.IdempotencyClaim → Type 0
KeepsClaims [] [] = Unit {0}
KeepsClaims [] (y ∷ later) = ⊥
KeepsClaims (x ∷ before) [] = ⊥
KeepsClaims ((j, c) ∷ before) ((k, e) ∷ later) =
    (k ≡ j)
    × (e ≡ record c { state = e.state; lock_version = e.lock_version })
    × KeepsClaims before later

-- What a repeated call answers, by the state that the attempt has reached.
abbrev pub repeated :
    AttemptState → Uuid → Schema.Db → Result StoreError (AdmissionDecision × Schema.Db)
repeated AttemptState.unknown id db = err Schema.idempotency_outcome_unknown
repeated AttemptState.unresolved id db = err Schema.idempotency_outcome_unknown
repeated AttemptState.admitted id db =
    ok (record { attempt_id = id; lock_version = 0; replay = true }, db)
repeated AttemptState.running id db =
    ok (record { attempt_id = id; lock_version = 0; replay = true }, db)
repeated AttemptState.succeeded id db =
    ok (record { attempt_id = id; lock_version = 0; replay = true }, db)
repeated AttemptState.failed id db =
    ok (record { attempt_id = id; lock_version = 0; replay = true }, db)

-- A call that succeeded has a claim of its key, with its hash.
record IsClaimed (request : AdmissionRequest) (id : Uuid) (t : Table Schema.IdempotencyClaim)
    : Type 0 where
  claim : Schema.IdempotencyClaim
  found : search_row (claims_request request) t ≡ some (id, claim)
  hash : claim.request_hash ≡ request.request_hash
