-- ===== src/Store/Compensation.antt =====
-- internal/adapter/postgres/evidence.go: the inbox of verified owner evidence, and the late
-- compensation that consumes it.
pub mod Late
use ouf_mcp_server.Prelude.{
  ℕ, suc, ◌+◌, ◌-◌, String, Bool, true, false, not, ◌&&◌, ◌||◌, Option, none, some, List, [], ◌∷◌,
  ltb, ◌==◌, if◌then◌else◌, is_some, length, ◌is◌, ◌differs◌, blank, has, Result, ok, err, ◌>>=◌,
}
use ouf_mcp_server.Prelude.Int.{ℤ, pos, ◌+ℤ◌, ◌-ℤ◌, ltb_ℤ, leb_ℤ, eqb_ℤ}
use ouf_mcp_server.Orchestration.Domain.{Time, Uuid}
use ouf_mcp_server.Store.Table.{find, modify, put, search_row}
use ouf_mcp_server.Store.Schema
use ouf_mcp_server.Store.Recovery.{
  is_unknown, in_doubt, claim_in_doubt, complete_claim, unblock_guard,
}
use ouf_mcp_server.Store.OwnerOutcome.{equals, text, nullif_blank, is_blocking, end_reservation}

-- What the file takes from the standard library: the match of `objectHashPattern`, and the text of
-- a hash before its first colon.
pub record Hashes : Type 0 where
  pub well_formed : String → Bool
  pub version : String → String

-- `evidence.Verified`
pub record Verified : Type 0 where
  pub evidence_ref : Uuid
  pub service_principal_id : String
  pub backend_owner : String
  pub backend_request_id : String
  pub kind : String
  pub terminal_state : Schema.AttemptState
  pub outcome_code : String
  pub result_ref : String
  pub actual_distinct_objects : ℤ
  pub object_hashes : List String
  pub payload_hash : String

abbrev pub new_evidence : Verified → Uuid → Uuid → Schema.OwnerEvidence
new_evidence input attempt window = record {
  attempt_id = attempt;
  budget_window_id = window;
  backend_owner = input.backend_owner;
  backend_request_id = input.backend_request_id;
  evidence_kind = input.kind;
  terminal_state = input.terminal_state;
  terminal_outcome_code = input.outcome_code;
  result_ref = nullif_blank input.result_ref;
  actual_distinct_objects = input.actual_distinct_objects;
  object_hashes = input.object_hashes;
  evidence_payload_hash = input.payload_hash;
  verified_by = input.service_principal_id;
  evidence_state = Schema.EvidenceState.verified;
}

-- The CHECK constraints of `owner_evidence_inbox`.
abbrev pub is_terminal : Schema.AttemptState → Bool
is_terminal Schema.AttemptState.succeeded = true
is_terminal Schema.AttemptState.failed = true
is_terminal _ = false

abbrev pub is_failed : Schema.AttemptState → Bool
is_failed Schema.AttemptState.failed = true
is_failed _ = false

unfoldable pub evidence_ok : Schema.OwnerEvidence → Bool
evidence_ok e =
    (e.evidence_kind is "OWNER_RESULT" || e.evidence_kind is "OWNER_PROVES_NO_DISPATCH")
    && is_terminal e.terminal_state
    && leb_ℤ (pos 0) e.actual_distinct_objects
    && (e.evidence_kind differs "OWNER_PROVES_NO_DISPATCH"
        || (is_failed e.terminal_state
            && e.terminal_outcome_code is "DISPATCH_NOT_STARTED"
            && eqb_ℤ e.actual_distinct_objects (pos 0)
            && length e.object_hashes == 0
            && not (is_some e.result_ref)))
    && (e.evidence_kind differs "OWNER_RESULT" || is_some e.result_ref)

abbrev pub matches_request : Schema.Db → Verified → Uuid → Bool
matches_request db input id = elim (find id db.contexts) [
  | none ↦ false
  | some c ↦ c.owner is input.backend_owner
]

unfoldable pub find_attempt :
    Schema.Db → Verified → List (Uuid × Schema.ToolAttempt) → Option (Uuid × Schema.ToolAttempt)
unfolding find
find_attempt db input [] = none
find_attempt db input ((id, a) ∷ rest) =
    if equals a.backend_request_id input.backend_request_id && matches_request db input id
    then some (id, a)
    else find_attempt db input rest

unfoldable pub same_evidence : Verified → Schema.OwnerEvidence → Bool
same_evidence input e =
    e.backend_owner is input.backend_owner && e.backend_request_id is input.backend_request_id

-- The reference of the evidence, and whether it was there.
unfoldable pub insert_verified_evidence :
    Verified → Schema.Db → Result Schema.StoreError ((Uuid × Bool) × Schema.Db)
unfolding find search_row find_attempt same_evidence evidence_ok
insert_verified_evidence input db = elim (search_row (same_evidence input) db.inbox) [
  | some (ref, e) ↦
      if e.evidence_payload_hash differs input.payload_hash
      then err Schema.ingress_conflict
      else ok ((ref, true), db)
  | none ↦ elim (find_attempt db input db.attempts) [
    | none ↦ err Schema.owner_mismatch
    | some (id, a) ↦ do
      c ← Schema.row (find id db.contexts)
      let e = new_evidence input id c.budget_window_id
      if is_some (find input.evidence_ref db.inbox)
          then err Schema.unique_violation
          else if not (evidence_ok e)
          then err Schema.check_violation
          else ok
              ((input.evidence_ref, false), record db { inbox = put input.evidence_ref e db.inbox })
  ]
]

pub data Disposition : Type 0 where
  idempotent_replay domain_violation_replay rejected_scope rejected_binding : Disposition
  committed_domain_violation compensated : Disposition

pub record CompensationResult : Type 0 where
  pub disposition : Disposition
  pub attempt_state : Schema.AttemptState
  pub outcome_code : String
  pub outcome_revision : ℕ

abbrev pub Answer : Type 0
Answer = Result Schema.StoreError (CompensationResult × Schema.Db)

abbrev pub answer : Disposition → Schema.ToolAttempt → Schema.Db → Answer
answer disposition a db = ok (
  record {
    disposition = disposition;
    attempt_state = a.state;
    outcome_code = text a.outcome_code;
    outcome_revision = a.outcome_revision;
  },
  db,
)

-- The disposition of evidence that was used before, if it was.
abbrev pub used : Schema.EvidenceState → Option Disposition
used Schema.EvidenceState.verified = none
used Schema.EvidenceState.consumed = some idempotent_replay
used Schema.EvidenceState.quarantined = some domain_violation_replay

abbrev pub is_verified : Schema.OwnerEvidence → Bool
is_verified e = elim e.evidence_state [ Schema.EvidenceState.verified ↦ true | _ ↦ false ]

abbrev pub set_evidence : Schema.EvidenceState → Schema.OwnerEvidence → Schema.OwnerEvidence
set_evidence state e = record e { evidence_state = state }

-- The key of an incident is made of its evidence and its category; a second one is not inserted.
same_incident : Schema.SecurityIncident → List Schema.SecurityIncident → Bool
same_incident i [] = false
same_incident i (j ∷ rest) =
    (j.evidence_ref == i.evidence_ref && j.category is i.category) || same_incident i rest

unfoldable pub add_incident : Schema.SecurityIncident → Schema.Db → Schema.Db
unfolding same_incident
add_incident i db =
    if same_incident i db.incidents then db else record db { incidents = i ∷ db.incidents }

-- `quarantineEvidence`
unfoldable pub quarantine : Uuid → Uuid → String → String → String → Schema.Db → Schema.Tx
unfolding Schema.exec_one add_incident
quarantine attempt ref payload category detail db = do
  inbox ← Schema.exec_one ref is_verified (set_evidence Schema.EvidenceState.quarantined) db.inbox
  ok (
      add_incident
        (record {
          attempt_id = attempt;
          evidence_ref = ref;
          category = category;
          detail_code = detail;
          evidence_payload_hash = payload;
        })
        (record db { inbox = inbox }))

-- The keys of the map `unique`.
unfoldable pub unique : List String → List String
unfolding has
unique [] = []
unique (h ∷ hs) = let rest = unique hs in if has rest h then rest else h ∷ rest

unfoldable pub all_allowed : Hashes → List String → List String → Bool
unfolding has
all_allowed hashes allowed [] = true
all_allowed hashes allowed (h ∷ hs) =
    hashes.well_formed h && has allowed (hashes.version h) && all_allowed hashes allowed hs

-- `violation`; blank if the evidence is fit.
unfoldable pub violation : Hashes → List String → ℤ → Schema.OwnerEvidence → String
unfolding all_allowed unique
violation hashes allowed debt e =
    if not (all_allowed hashes allowed e.object_hashes)
    then "CRYPTO_VIOLATION"
    else if not (eqb_ℤ (pos (length (unique e.object_hashes))) e.actual_distinct_objects)
        || ltb_ℤ debt e.actual_distinct_objects
        || (e.evidence_kind is "OWNER_PROVES_NO_DISPATCH"
            && (not (eqb_ℤ e.actual_distinct_objects (pos 0)) || not (length e.object_hashes == 0)))
    then "CONTRACT_VIOLATION"
    else ""

-- The inserts into `budget_distinct_object`, with the number of rows that were new.
has_object : Uuid → String → List (Uuid × String) → Bool
has_object window h [] = false
has_object window h ((w, g) ∷ rest) = (w == window && g is h) || has_object window h rest

unfoldable pub insert_objects : Uuid → List String → List (Uuid × String) → ℕ × List (Uuid × String)
unfolding has_object
insert_objects window [] objects = (0, objects)
insert_objects window (h ∷ hs) objects =
    let (n, rest) = insert_objects window hs objects in
    if has_object window h rest then (n, rest) else (suc n, (window, h) ∷ rest)
