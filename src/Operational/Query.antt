-- ===== src/Operational/Query.antt =====
-- `operationalQuery` of internal/operational/owner_api.go and `canonicalPublicationFilters` of
-- internal/operational/publication_composer.go, on decoded JSON: the members of an object in the
-- order of the document, repeated ones included, or `none` where the text is no JSON object.
-- `is_time` is the success of `time.Parse`, `trim_space` `strings.TrimSpace`.
use ouf_mcp_server.Prelude.{
  ℕ, Bool, false, ◌&&◌, ◌||◌, Option, none, some, List, [], ◌∷◌, leb, if◌then◌else◌, blank, ◌is◌,
  has, rune_count, String,
}
use ouf_mcp_server.Prelude.Int.{pos, ltb_ℤ, pos_part}
use ouf_mcp_server.Operational.Incidents.{Json, string, whole, flag, other}

-- `ErrCursorNotFound` to `ErrCursorCapacity`, `ErrCursorOwnerUnavailable`, and other errors.
pub data CursorError : Type 0 where
  cursor_not_found cursor_expired cursor_conflict cursor_capacity : CursorError
  cursor_owner_unavailable cursor_identity_incomplete cursor_database : CursorError

abbrev pub is_lifecycle : String → Bool
is_lifecycle state = state is "OPEN" || state is "RECOVERING" || state is "RESOLVED"

abbrev limit_of : Json → Option ℕ
limit_of (whole n) = if ltb_ℤ n (pos 1) || ltb_ℤ (pos 100) n then none else some (pos_part n)
limit_of (string s) = none
limit_of (flag b) = none
limit_of (other e) = none

abbrev admits_text : (String → Bool) → Bool → String → Json → Bool
admits_text is_time incidents key (string text) =
    if blank text
    then false
    else if key is "sourceId"
    then leb (rune_count text) 200
    else if key is "state"
    then incidents && is_lifecycle text
    else is_time text
admits_text is_time incidents key (flag b) = false
admits_text is_time incidents key (whole n) = false
admits_text is_time incidents key (other e) = false

-- The loop over the members: the keys seen so far and the limit.
unfoldable pub read_query :
    (String → Bool) → Bool → List String → ℕ → List (String × Json) → Option ℕ
unfolding rune_count has
read_query is_time incidents seen limit [] = some limit
read_query is_time incidents seen limit ((key, value) ∷ rest) =
    let taken = λ (n : ℕ). read_query is_time incidents (key ∷ seen) n rest in
    if has seen key
    then none
    else if key is "limit"
    then elim (limit_of value) [ none ↦ none | some n ↦ taken n ]
    else if key is "sourceId" || key is "state" || key is "since"
    then if admits_text is_time incidents key value then taken limit else none
    else none

unfoldable pub operational_query : (String → Bool) → Option (List (String × Json)) → Bool → Option ℕ
unfolding read_query
operational_query is_time none incidents = none
operational_query is_time (some members) incidents = read_query is_time incidents [] 50 members
