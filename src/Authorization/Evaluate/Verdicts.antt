-- ===== src/Authorization/Evaluate/Verdicts.antt =====
-- What the loop of `evaluate` over the grants computes, said without the loop.
use ouf_mcp_server.Prelude.{
  Bool, true, not, ◌&&◌, ◌||◌, List, [], ◌∷◌, if◌then◌else◌, any, ◌≡◌, arith,
}
use ouf_mcp_server.Authorization.Bundle.{Grant}
use ouf_mcp_server.Authorization.Evaluate.{
  Question, Verdict, denied, allows, addresses, constraints_match, is_deny, discloses, consider,
}

-- The grant is addressed to the request and its conditions hold.
abbrev pub applies : Question → Grant → Bool
applies q g = addresses q g && constraints_match q g.constraints

abbrev pub denies : Question → Grant → Bool
denies q g = applies q g && is_deny g.constraints

abbrev pub permits : Question → Grant → Bool
permits q g = applies q g && not (is_deny g.constraints) && discloses q g

abbrev pub verdict : Question → Bool → List Grant → Verdict
verdict q allow grants =
    if any (denies q) grants then denied else allows (allow || any (permits q) grants)

pub consider-eq-verdict :
    (q : Question) (allow : Bool) (grants : List Grant)
    → consider q allow grants ≡ verdict q allow grants
unfolding consider
consider-eq-verdict q allow [] = ground arith
consider-eq-verdict q allow (g ∷ rest) =
    ground (arith, consider-eq-verdict q allow rest, consider-eq-verdict q true rest)
