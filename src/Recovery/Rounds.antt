-- ===== src/Recovery/Rounds.antt =====
-- A round of the maintenance worker that ends without an error.
use ouf_mcp_server.Prelude.{
  ℕ, suc, ◌+◌, String, List, [], ◌∷◌, ◌is◌, ◌≡◌, ◌⊎◌, if◌then◌else◌, length,
}
use ouf_mcp_server.Store.Schema
use ouf_mcp_server.Store.Recovery.{Candidate}
use ouf_mcp_server.Store.Ledger.{IsLedger}
use ouf_mcp_server.Recovery.{Worker, Owner, Counts, Round, ask}

-- One of the four outcomes that an owner may answer.
abbrev pub IsOutcome : String → Type 0
IsOutcome s = (s ≡ "SUCCEEDED") ⊎ ((s ≡ "FAILED") ⊎ ((s ≡ "NOT_DISPATCHED") ⊎ (s ≡ "UNKNOWN")))

-- The answer about every candidate names the candidate's own request and one of the outcomes.
abbrev pub AreAnswered : Owner → List Candidate → Type 0
AreAnswered owner [] = Unit {0}
AreAnswered owner (c ∷ cs) =
    ((ask owner c).backend_request_id ≡ c.backend_request_id)
    × IsOutcome (ask owner c).outcome
    × AreAnswered owner cs

-- How many of the candidates stay in doubt.
abbrev pub doubts : Owner → List Candidate → ℕ
doubts owner [] = 0
doubts owner (c ∷ cs) =
    if (ask owner c).outcome is "UNKNOWN" then suc (doubts owner cs) else doubts owner cs

-- What the loop has done when nothing stopped it: it goes on with `next` on the tables `db'` and
-- the counts `n'`.
record IsResolved (owner : Owner) (next : Schema.Db → Counts → Round) (cs : List Candidate)
    (n : Counts) (end : Round) : Type 0 where
  db' : Schema.Db
  n' : Counts
  goes_on : end ≡ next db' n'
  ledger : IsLedger db'
  claimed : n'.claimed ≡ n.claimed
  counts : n'.reconciled + n'.still_unknown ≡ length cs + (n.reconciled + n.still_unknown)
  unknown : n'.still_unknown ≡ doubts owner cs + n.still_unknown
  answered : AreAnswered owner cs
