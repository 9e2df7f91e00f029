-- ===== src/Evidence/Entry.antt =====
-- What an entry of owner evidence that succeeds has done.
use ouf_mcp_server.Prelude.{blank, Bool, true, false, none, some, ◌≡◌, ◌⊎◌}
use ouf_mcp_server.Orchestration.Domain.{Uuid}
use ouf_mcp_server.Store.Table.{Table, find, put}
use ouf_mcp_server.Evidence.Fit.{IsFit}
use ouf_mcp_server.Store.Schema
use ouf_mcp_server.Store.Schema.{AttemptState}
use ouf_mcp_server.Store.Compensation.{Verified, new_evidence}
use ouf_mcp_server.Evidence.{TrustedIdentity, Input}

-- The attempt that sent the request of the evidence, to the owner that answers.
abbrev pub IsAttemptOf : Verified → Schema.Db → Uuid → Schema.AdmissionContext → Type 0
IsAttemptOf v db id c =
    (a : Schema.ToolAttempt) × (find id db.attempts ≡ some a)
    × (a.backend_request_id ≡ some v.backend_request_id)
    × (find id db.contexts ≡ some c)
    × (c.owner ≡ v.backend_owner)

-- The evidence was in the inbox with the same content and nothing changed, or it was not there and
-- is now its only new row, fit and bound to the attempt that it is about.
abbrev pub IsEntered : Verified → Uuid → Bool → Schema.Db → Schema.Db → Type 0
IsEntered v ref again db db' =
    ((again ≡ true)
      × (db' ≡ db)
      × (e : Schema.OwnerEvidence) × (find ref db.inbox ≡ some e)
      × (e.backend_owner ≡ v.backend_owner)
      × (e.backend_request_id ≡ v.backend_request_id)
      × (e.evidence_payload_hash ≡ v.payload_hash))
    ⊎ ((again ≡ false)
        × (ref ≡ v.evidence_ref)
        × IsFit v
        × (find ref db.inbox ≡ none)
        × (id : Uuid) × (c : Schema.AdmissionContext) × IsAttemptOf v db id c
        × (db' ≡ record db { inbox = put ref (new_evidence v id c.budget_window_id) db.inbox }))

-- The owner is authenticated, and claims to be no other.
abbrev pub IsTrusted : TrustedIdentity → Input → Type 0
IsTrusted t input =
    (t.is_authenticated ≡ true)
    × (blank t.service_principal_id ≡ false)
    × (blank t.backend_owner ≡ false)
    × ((input.claimed_owner ≡ "") ⊎ (input.claimed_owner ≡ t.backend_owner))
