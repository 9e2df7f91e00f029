-- ===== src/Evidence.antt =====
-- internal/evidence/service.go: the entry of owner evidence, and the request of a compensation.
-- The sort, the name-based uuid, and the digest of the canonical JSON are parameters. As in the
-- store, a terminal state is one of the states of an attempt.
pub mod Fit
pub mod Entry
use ouf_mcp_server.Prelude.{
  ℕ, String, Bool, not, ◌&&◌, ◌||◌, List, if◌then◌else◌, ◌==◌, ◌is◌, ◌differs◌, blank, Result, ok,
  err,
}
use ouf_mcp_server.Prelude.Int.{ℤ, pos, pos_part, ltb_ℤ}
use ouf_mcp_server.Orchestration.Domain.{Time, Uuid}
use ouf_mcp_server.Store.Schema
use ouf_mcp_server.Store.Compensation.{
  Hashes, Verified, CompensationResult, insert_verified_evidence,
}
use ouf_mcp_server.Store.Compensation.Late.{late_compensate}

pub record TrustedIdentity : Type 0 where
  pub is_authenticated : Bool
  pub service_principal_id : String
  pub backend_owner : String

pub record Input : Type 0 where
  pub claimed_owner : String
  pub backend_request_id : String
  pub kind : String
  pub terminal_state : Schema.AttemptState
  pub outcome_code : String
  pub result_ref : String
  pub actual_distinct_objects : ℤ
  pub object_hashes : List String

pub record Digests : Type 0 where
  pub sort_strings : List String → List String
  -- `uuid.NewSHA1` of the owner and the request.
  pub evidence_ref : String → String → Uuid
  -- The digest of the reference, the owner and the input.
  pub payload_hash : Uuid → String → Input → String

pub data EvidenceError : Type 0 where
  unauthenticated claimed_by_another invalid_input invalid_request : EvidenceError
  store : Schema.StoreError → EvidenceError

abbrev pub unauthenticated_by : TrustedIdentity → Bool
unauthenticated_by t =
    not t.is_authenticated || blank t.service_principal_id || blank t.backend_owner

abbrev pub is_claimed : TrustedIdentity → Input → Bool
is_claimed t input = not (blank input.claimed_owner) && input.claimed_owner differs t.backend_owner

abbrev pub is_invalid : Input → Bool
is_invalid input =
    blank input.backend_request_id
    || (input.kind differs "OWNER_RESULT" && input.kind differs "OWNER_PROVES_NO_DISPATCH")

-- What the store is given: the owner is the one of the trusted identity.
abbrev pub verified_of : Digests → TrustedIdentity → Input → Verified
verified_of d t input =
    let sorted = record input { object_hashes = d.sort_strings input.object_hashes } in
    let ref = d.evidence_ref t.backend_owner input.backend_request_id in
    record {
      evidence_ref = ref;
      service_principal_id = t.service_principal_id;
      backend_owner = t.backend_owner;
      backend_request_id = input.backend_request_id;
      kind = input.kind;
      terminal_state = input.terminal_state;
      outcome_code = input.outcome_code;
      result_ref = input.result_ref;
      actual_distinct_objects = input.actual_distinct_objects;
      object_hashes = d.sort_strings input.object_hashes;
      payload_hash = d.payload_hash ref t.backend_owner sorted;
    }

abbrev pub from_store {ℓ} : {A : Type ℓ} → Result Schema.StoreError A → Result EvidenceError A
from_store (ok a) = ok a
from_store (err e) = err (store e)

unfoldable pub ingest :
    Digests → TrustedIdentity → Input → Schema.Db → Result EvidenceError ((Uuid × Bool) × Schema.Db)
unfolding insert_verified_evidence
ingest d t input db =
    if unauthenticated_by t
    then err unauthenticated
    else if is_claimed t input
    then err claimed_by_another
    else if is_invalid input
    then err invalid_input
    else from_store (insert_verified_evidence (verified_of d t input) db)

-- `CompensationService.Apply`
unfoldable pub apply :
    Hashes
    → Time
    → Uuid
    → Uuid
    → ℤ
    → Schema.Db
    → Result EvidenceError (CompensationResult × Schema.Db)
unfolding late_compensate
apply hashes now attempt_id evidence_ref expected_revision db =
    if attempt_id == 0 || evidence_ref == 0 || ltb_ℤ expected_revision (pos 0)
    then err invalid_request
    else from_store
        (late_compensate hashes now attempt_id evidence_ref (pos_part expected_revision) db)
