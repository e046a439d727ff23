-- ===== src/Erasure.antt =====
-- The erasure of a user's words from a room's log (`erase_user` of
-- src/multiplayer/services/erasure.py, `EventRedactionRepo` of src/multiplayer/db/redactions.py and
-- `redact_payload_in_transaction` of src/multiplayer/db/repositories.py). The id that `new_id` draws
-- for a redaction is `new_id` of the event's id, since one is drawn for each. Everything is within a
-- transaction. The sweeps of copies of the words in other tables are left out.
pub mod Redacted
pub mod Owing
pub mod Walked
pub mod Announced
pub mod Stored
pub mod Step
pub mod Ready
pub mod Loop
pub mod Room
use xyzzy.Prelude.{
  Bool, List, Option, Result, String, [], contains, err, false, if◌then◌else◌, ite, keep, length,
  none, not, ok, some, str, true, ◌&&◌, ◌++◌, ◌>>=◌, ◌>>◌, ◌||◌, ◌∷◌,
}
use xyzzy.Json.{Fields, Items, Json, field, get}
use xyzzy.Audit.{
  EventRow, Field, RedactionAnnouncement, RedactionRow, header_snapshot_hash, marker_of_json,
}
use xyzzy.Audit.Verify.{column_text}
use xyzzy.Audit.Rooms.{Log, room_rows}
use xyzzy.Events.{EventError, RoomEvent, append_with_next_sequence_in_transaction}

pub data ErasureError : Type 0 where
  bad_payload integrity_error : ErasureError
  event_error : EventError → ErasureError

-- `isinstance(payload.get(key), str) and payload[key]`
abbrev pub is_said : Json → Bool
is_said (Json.text t) = ite (str t "") false true
is_said _ = false

abbrev pub any_said : List String → Fields → Bool
any_said [] fs = false
any_said (key ∷ keys) fs = is_said (get key fs) || any_said keys fs

abbrev pub personal_payload_keys : List String
personal_payload_keys = "content" ∷ "body" ∷ "title" ∷ "filename" ∷ "instruction" ∷ []

abbrev pub room_metadata_keys : List String
room_metadata_keys = "name" ∷ "description" ∷ []

abbrev pub reserved_artifact_names : List String
reserved_artifact_names = "General Synthesis" ∷ "Decision Brief" ∷ "Progress Report" ∷ []

abbrev pub is_own_name : Json → Bool
is_own_name (Json.text t) = ite (str t "") false (not (contains str t reserved_artifact_names))
is_own_name _ = false

abbrev pub is_null : Json → Bool
is_null Json.null = true
is_null _ = false

unfoldable pub carries_personal_content : String → Fields → Bool
unfolding get contains
carries_personal_content event_type fs =
    if any_said personal_payload_keys fs
    then true
    else ite (str event_type "room.created") (any_said room_metadata_keys fs) (
        ite (str event_type "artifact.created") (is_own_name (get "name" fs))
          (ite (str event_type "task.delegated") (is_null (get "delegating_agent_id" fs)) false))

abbrev pub is_some {ℓ} : {A : Type ℓ} → Option A → Bool
is_some none = false
is_some (some _) = true

unfoldable pub is_redaction_marker : Fields → Bool
unfolding marker_of_json
is_redaction_marker fs = is_some (marker_of_json (Json.object fs))

-- `{"redacted": True, "redaction_id": …}`
abbrev pub marker_body : String → Json
marker_body id =
    Json.object (field "redacted" (Json.bool true) (field "redaction_id" (Json.text id) Fields.end))

abbrev pub announcement_item : RedactionAnnouncement → Json
announcement_item a = Json.object (
    field "redaction_id" (Json.text a.announced_id) (
      field "header_hash" (Json.text a.announced_header_hash)
        (field "original_event_hash" (Json.text a.announced_original_hash) Fields.end)))

abbrev pub announcement_items : List RedactionAnnouncement → Items
announcement_items [] = Items.nil
announcement_items (a ∷ rest) = Items.cons (announcement_item a) (announcement_items rest)

abbrev pub announcement_body : List RedactionAnnouncement → Json
announcement_body announced = Json.object (
    field "redactions" (Json.array (announcement_items announced))
      (field "count" (Json.number (length announced)) Fields.end))

-- `UPDATE room_events SET payload = ? WHERE event_id = ?`, in one room and in all of them.
unfoldable pub redact_rows : String → String → List EventRow → List EventRow
redact_rows event_id payload [] = []
redact_rows event_id payload (row ∷ rows) =
    let later = redact_rows event_id payload rows in
    ite (str row.event_id event_id) (record row { payload = payload } ∷ later) (row ∷ later)

unfoldable pub redact_payload_in_transaction :
    String → String → List (String × List EventRow) → List (String × List EventRow)
unfolding redact_rows
redact_payload_in_transaction event_id payload [] = []
redact_payload_in_transaction event_id payload ((room_id, rows) ∷ rest) =
    (room_id, redact_rows event_id payload rows)
    ∷ redact_payload_in_transaction event_id payload rest

-- The two unique columns of `event_redactions`.
unfoldable pub redaction_taken : String → String → List RedactionRow → Bool
redaction_taken redaction_id event_id [] = false
redaction_taken redaction_id event_id (r ∷ rs) =
    ite (str r.redaction_id redaction_id) true
      (ite (str r.redacted_event_id event_id) true (redaction_taken redaction_id event_id rs))

-- `INSERT INTO event_redactions`
unfoldable pub create_redaction :
    List RedactionRow → RedactionRow → Result ErasureError (List RedactionRow)
unfolding redaction_taken
create_redaction redactions r =
    if redaction_taken r.redaction_id r.redacted_event_id redactions
    then err integrity_error
    else ok (redactions ++ r ∷ [])

-- `str(row["prev_hash"]) if row["prev_hash"] is not None else ""`
abbrev pub text_or_empty : Option String → String
text_or_empty none = ""
text_or_empty (some t) = t

module _ (digest : List Field → String) (loads : String → Option Json) (dumps : Json → String)
    (new_id : String → String) where
  -- The redaction record of an event.
  unfoldable pub redaction_of : EventRow → RedactionRow
  redaction_of row = record {
    redaction_id = new_id row.event_id;
    redacted_event_id = row.event_id;
    original_event_hash = column_text row.event_hash;
    header_hash = header_snapshot_hash digest row (text_or_empty row.prev_hash);
  }

  abbrev pub announcement_for : RedactionRow → RedactionAnnouncement
  announcement_for r = record {
    announced_id = r.redaction_id;
    announced_header_hash = r.header_hash;
    announced_original_hash = r.original_event_hash;
  }

  abbrev pub marker_for : EventRow → String
  marker_for row = dumps (marker_body (new_id row.event_id))

  unfoldable pub erase_event : Log → EventRow → Result ErasureError Log
  unfolding create_redaction redact_payload_in_transaction
  erase_event log row = do
    redactions ← create_redaction log.redactions (redaction_of row)
    ok (record log {
      redactions = redactions;
      events = redact_payload_in_transaction row.event_id (marker_for row) log.events;
    })

  -- `none` where the payload is no object, on which the loop raises.
  unfoldable pub is_erased : EventRow → Option Bool
  unfolding is_redaction_marker carries_personal_content
  is_erased row = elim (loads row.payload) [
    | some (Json.object fs) ↦
        some (not (is_redaction_marker fs) && carries_personal_content row.event_type fs)
    | _ ↦ none
  ]

  -- The loop over the user's rows of a room.
  unfoldable pub erase_rows :
      Log → List EventRow → Result ErasureError (Log × List RedactionAnnouncement)
  unfolding is_erased erase_event
  erase_rows log [] = ok (log, [])
  erase_rows log (row ∷ rows) = elim (is_erased row) [
    | none ↦ err bad_payload
    | some false ↦ erase_rows log rows
    | some true ↦ do
      log' ← erase_event log row
      (log'', announced) ← erase_rows log' rows
      ok (log'', announcement_for (redaction_of row) ∷ announced)
  ]

  -- The chained event that names the redactions.
  abbrev pub announcing_event :
      String → String → List RedactionAnnouncement → String → String → RoomEvent
  announcing_event room_id operator_id announced id at = record {
    event_room = room_id;
    event_sequence = 0;
    kind = "event.redacted";
    body = announcement_body announced;
    actor = operator_id;
    actor_kind = ite (str operator_id "system") "system" "user";
    id = id;
    at = at;
    schema = 1;
  }

  abbrev pub lift_event {ℓ} : {A : Type ℓ} → Result EventError A → Result ErasureError A
  lift_event (ok a) = ok a
  lift_event (err e) = err (event_error e)

  -- `if redaction_announcements: …`
  unfoldable pub announce :
      Log → String → String → List RedactionAnnouncement → String → String → Result ErasureError Log
  announce log room_id operator_id [] id at = ok log
  announce log room_id operator_id (a ∷ announced) id at = lift_event (
      append_with_next_sequence_in_transaction digest dumps true log
        (announcing_event room_id operator_id (a ∷ announced) id at))

  -- `list_by_actor(user_id, ("user", "human"))`, in one room
  unfoldable pub list_by_actor : List EventRow → String → List EventRow
  list_by_actor rows user_id =
      keep
        (λ (r : EventRow).
          ite (str r.actor_id user_id) (contains str r.actor_type ("user" ∷ "human" ∷ [])) false)
        rows

  -- One room's transaction, over the rows of the log.
  unfoldable pub erase_room :
      Log → String → String → String → String → String → Result ErasureError Log
  unfolding erase_rows list_by_actor announce
  erase_room log room_id user_id operator_id id at = do
    (log', announced) ← erase_rows log (list_by_actor (room_rows log room_id) user_id)
    announce log' room_id operator_id announced id at
