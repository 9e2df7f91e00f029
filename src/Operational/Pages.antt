-- ===== src/Operational/Pages.antt =====
-- The pages of the owners: `decodeCursorOwnerPage` of internal/operational/cursor_composer.go.
-- `OwnerReply` is the JSON of an owner once decoded: absent or null parts are `none`.
pub mod Decoded
use ouf_mcp_server.Prelude.{
  ℕ, zero, suc, String, Bool, true, false, not, ◌&&◌, ◌||◌, Option, none, some, is_some, List, [],
  ◌∷◌, ltb, leb, ◌==◌, if◌then◌else◌, length, all, blank, ◌is◌, ◌differs◌, has, valid_digest, ◌*◌,
  Result, err, ok, ◌>>=◌,
}
use ouf_mcp_server.Orchestration.Domain.{Time}
use ouf_mcp_server.Operational.Incidents.{
  Json, string, flag, whole, other, Item, find_field, string_value, incident_value, id_of, rank_of,
  state_of, incident_before, agree,
}
use ouf_mcp_server.Operational.Query.{CursorError, is_lifecycle}
use ouf_mcp_server.Operational.Query.CursorError.{
  cursor_conflict, cursor_capacity, cursor_owner_unavailable,
}
use ouf_mcp_server.Operational.Frames.{
  OwnerPosition, CursorFrame, Codec, is_token, canonical_publication_token,
}
use ouf_mcp_server.Operational.Validity.{publication_owner_parent}

pub record OwnerReply : Type 0 where
  pub items : Option (List (Option Item))
  pub partial : Option Bool
  pub truncated : Bool
  pub cursor : String
  pub next_cursor : String
  pub snapshot_ref : String
  pub items_digest : String
  pub expires_at : Time
  pub snapshot_expires_at : Time
  pub priority_profile : String
  pub cursor_profile : String
  pub consultation_recorded : Bool
  pub bookmark_profile : String
  pub publication_bookmark : String
  pub parent_bookmark : String
  pub no_publication_progress : Option Bool

-- What is read of a page once it is accepted.
pub record CursorOwnerPage : Type 0 where
  pub items : List Item
  pub cursor : String
  pub next_cursor : String
  pub snapshot_ref : String
  pub items_digest : String
  pub bookmark_profile : String
  pub publication_bookmark : String
  pub parent_bookmark : String
  pub no_publication_progress : Option Bool

abbrev incident_fields : List String
incident_fields =
    "incident_id" ∷ "module" ∷ "event_type" ∷ "lifecycle_state" ∷ "severity" ∷ "first_seen_at"
    ∷ "last_seen_at" ∷ "resolved_at" ∷ "correlation_id" ∷ "endpoint_ref" ∷ "error_code"
    ∷ "impact_summary" ∷ "action_required" ∷ "dedup_key" ∷ "occurrence_count" ∷ "visibility_class"
    ∷ "job_ref" ∷ "source_ref" ∷ "authorization_decision_ref" ∷ []

unfoldable pub cursor_incident_field : String → Bool
unfolding has
cursor_incident_field field = has incident_fields field

-- `item[key] = value`.
unfoldable pub set_field : Item → String → Json → Item
set_field [] key value = (key, value) ∷ []
set_field ((k, v) ∷ rest) key value =
    if k is key then (k, value) ∷ rest else (k, v) ∷ set_field rest key value

abbrev names_module : Option Json → String → Bool
names_module none name = true
names_module (some (string value)) name = value is name
names_module (some (flag b)) name = false
names_module (some (whole n)) name = false
names_module (some (other e)) name = false

abbrev is_flag : Option Json → Bool
is_flag (some (flag b)) = true
is_flag (some (string s)) = false
is_flag (some (whole n)) = false
is_flag (some (other e)) = false
is_flag none = false

abbrev valid_item : List String → Item → Bool
valid_item seen item =
    not (blank (id_of item))
    && not (has seen (id_of item))
    && not (rank_of item == 0)
    && is_lifecycle (state_of item)
    && is_flag (incident_value item "action_required" "actionRequired")

abbrev pub add_item : Bool → Item → Option (List Item) → Option (List Item)
add_item true item items = none
add_item false item none = none
add_item false item (some items) = some (item ∷ items)

-- The loop over the items, with the identifiers seen so far.
unfoldable pub decode_items : String → List String → List (Option Item) → Option (List Item)
unfolding cursor_incident_field has id_of rank_of incident_value set_field
decode_items name seen [] = some []
decode_items name seen (none ∷ rest) = none
decode_items name seen (some fields ∷ rest) =
    let item : Item = set_field fields "module" (string name) in
    let decoded : Option (List Item) = decode_items name (id_of item ∷ seen) rest in
    add_item
      (not (all (λ field. cursor_incident_field field.0) fields)
        || not (names_module (find_field fields "module") name)
        || not (valid_item seen item))
      item decoded

unfoldable pub get_elem? : {A : Type 0} → List A → ℕ → Option A
get_elem? [] n = none
get_elem? (x ∷ xs) zero = some x
get_elem? (x ∷ xs) (suc n) = get_elem? xs n

unfoldable pub last_of : {A : Type 0} → List A → Option A
last_of [] = none
last_of (x ∷ []) = some x
last_of (x ∷ y ∷ rest) = last_of (y ∷ rest)

-- `sort.SliceIsSorted`, which compares neighbours.
unfoldable pub is_sorted : {A : Type 0} → (A → A → Bool) → List A → Bool
is_sorted before [] = true
is_sorted before (x ∷ []) = true
is_sorted before (x ∷ y ∷ rest) = not (before y x) && is_sorted before (y ∷ rest)

module _ (codec : Codec) where
  abbrev pub expiry : String → OwnerReply → Time
  expiry name reply = if name is "INGESTION" then reply.snapshot_expires_at else reply.expires_at

  abbrev pub unusable : String → Time → OwnerReply → List (Option Item) → Bool
  unusable name now reply items =
      elim reply.partial [ none ↦ true | some partial ↦ partial ]
      || reply.consultation_recorded
      || ltb 100 (length items)
      || reply.priority_profile differs "ouf.incident-priority.v1"
      || reply.cursor_profile differs "ouf.incident-owner-cursor.v1"
      || not (valid_digest reply.items_digest)
      || ltb (expiry name reply) now

  abbrev pub bad_tokens : OwnerReply → Bool
  bad_tokens reply = not (is_token codec reply.cursor && is_token codec reply.snapshot_ref)

  abbrev pub bad_next : OwnerReply → List (Option Item) → Bool
  bad_next reply items =
      not (agree reply.truncated (not (blank reply.next_cursor)))
      || not (blank reply.next_cursor)
        && (not (is_token codec reply.next_cursor)
            || reply.next_cursor is reply.cursor
            || not (length items == 100))

  abbrev pub page_of : OwnerReply → List Item → CursorOwnerPage
  page_of reply items = record {
    items = items;
    cursor = reply.cursor;
    next_cursor = reply.next_cursor;
    snapshot_ref = reply.snapshot_ref;
    items_digest = reply.items_digest;
    bookmark_profile = reply.bookmark_profile;
    publication_bookmark = reply.publication_bookmark;
    parent_bookmark = reply.parent_bookmark;
    no_publication_progress = reply.no_publication_progress;
  }

  abbrev pub sorted_page : OwnerReply → Option (List Item) → Result CursorError CursorOwnerPage
  sorted_page reply none = err cursor_conflict
  sorted_page reply (some items) =
      if not (is_sorted (incident_before codec.parse_time) items)
      then err cursor_conflict
      else ok (page_of reply items)

  abbrev pub accept_items :
      String → Time → OwnerReply → Option (List (Option Item)) → Result CursorError CursorOwnerPage
  accept_items name now reply none = err cursor_owner_unavailable
  accept_items name now reply (some items) =
      if unusable name now reply items
      then err cursor_owner_unavailable
      else if bad_tokens reply
      then err cursor_conflict
      else if bad_next reply items
      then err cursor_conflict
      else sorted_page reply (decode_items name [] items)

  -- The reply, or `none` where it is no JSON or larger than 512 KiB, and whether its keys are unique.
  unfoldable pub decode_cursor_owner_page :
      Option (OwnerReply × Bool) → String → Time → Result CursorError CursorOwnerPage
  unfolding is_sorted decode_items valid_digest incident_before
  decode_cursor_owner_page none name now = err cursor_owner_unavailable
  decode_cursor_owner_page (some (reply, unique)) name now =
      if not unique then err cursor_conflict else accept_items name now reply reply.items
