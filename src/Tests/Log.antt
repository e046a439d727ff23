-- ===== src/Tests/Log.antt =====
-- The event log's theorems on a log of two events.
use xyzzy.Audit.Verify.{ChainBreak, counter_differs, hash_differs, sequence_missing, unannounced}
use xyzzy.Audit.Commitment.{verified_logs_agree}
use xyzzy.Audit.Tamper.{break_at, dropped_row_reported, edited_row_reported, truncation_reported}
use xyzzy.Events.{RoomEvent, append_with_next_sequence_in_transaction, event_id_taken, has_event}
use xyzzy.Events.Append.{IsAccepted, append-IsAccepted, appended_row}
use xyzzy.Prelude.{
  List, Option, String, [], ap, arith, contains, false, if◌then◌else◌, ite, lookup, none, ok, refl,
  some, str, true, ℕ, ◌++◌, ◌==◌, ◌↔◌, ◌∷◌, ◌≡◌, ◌≢◌, ◌⊎◌,
}
use xyzzy.Json.{Json, null}
use xyzzy.Audit.{
  EventRow, Field, chain_material, event_chain_hash, genesis_hash, number_field, redaction_marker,
  text_field,
}
use xyzzy.Audit.Rooms.{Log, room_rows, verify_room, verify_rows}
use xyzzy.Audit.Linked.{Counts, Linked, Unredacted, verify_room_iff, verify_rows_iff}
use Prim.Native.String

-- A digest that keeps every field's text.
abbrev field_text : Field → String
field_text (text_field t) = t
field_text (number_field n) = if n == 1 then "1" else "n"

abbrev joined : List Field → String
joined [] = ""
joined (f ∷ fs) = String.◌++◌ (field_text f) (String.◌++◌ "|" (joined fs))

-- No text parses, and every value prints as an empty object.
abbrev no_loads : String → Option Json
no_loads _ = none

abbrev empty_dumps : Json → String
empty_dumps _ = "{}"

abbrev row_of : String → ℕ → String → String → EventRow
row_of id n payload prev =
    let bare : EventRow = record {
      event_id = id;
      sequence = n;
      event_type = "message.posted";
      payload = payload;
      actor_id = "u1";
      actor_type = "user";
      timestamp = "t";
      schema_version = 1;
      prev_hash = some prev;
      event_hash = none;
    } in
    record bare { event_hash = some (event_chain_hash joined prev "r1" bare) }

abbrev first_row : EventRow
first_row = row_of "e1" 1 "{}" ""

abbrev first_hash : String
first_hash = event_chain_hash joined "" "r1" first_row

abbrev second_row : EventRow
second_row = row_of "e2" 2 "{}" first_hash

abbrev edited_row : EventRow
edited_row = record second_row { payload = "{1}" }

abbrev two_rows : List EventRow
two_rows = first_row ∷ second_row ∷ []

abbrev two_log : Log
two_log = record {
  rooms = "r1" ∷ [];
  counters = ("r1", 2) ∷ [];
  events = ("r1", two_rows) ∷ [];
  redactions = [];
}

two_Linked : Linked joined no_loads "r1" genesis_hash 0 two_rows
unfolding event_chain_hash chain_material
two_Linked = (refl, refl, refl, (refl, refl, refl, tt))

two_Unredacted : Unredacted joined no_loads two_rows
unfolding redaction_marker
two_Unredacted = (refl, (refl, tt))

verify_room_iff_example :
    (verify_room joined no_loads two_log "r1" ≡ (2, none))
    ↔ (Linked joined no_loads "r1" genesis_hash 0 two_rows × Counts joined no_loads (some 2) 2)
unfolding lookup str
verify_room_iff_example = verify_room_iff joined no_loads two_log "r1" two_Unredacted

two_accepted : verify_rows joined no_loads "r1" [] two_rows (some 2) ≡ (2, none)
two_accepted =
    (verify_rows_iff joined no_loads "r1" [] two_rows (some 2) two_Unredacted).1 (two_Linked, refl)

two_unbroken : (verify_rows joined no_loads "r1" [] two_rows (some 2)).1 ≡ none
two_unbroken = ap (λ (r : ℕ × Option ChainBreak). r.1) two_accepted

verified_logs_agree_example : two_rows ≡ two_rows
verified_logs_agree_example =
    verified_logs_agree joined no_loads "r1" [] [] two_rows two_rows 2 two_Unredacted two_Unredacted
      two_accepted two_accepted refl (λ h. refl, (λ h. refl, tt))

apart : (a b : String) → ite (str a b) true false ≡ false → a ≢ b
apart a b h e = ground arith

edited_row_reported_example :
    verify_rows joined no_loads "r1" [] (first_row ∷ edited_row ∷ []) (some 2)
    ≡ (1, some (break_at joined no_loads "r1" [] edited_row hash_differs))
unfolding redaction_marker event_chain_hash chain_material str
edited_row_reported_example =
    edited_row_reported joined no_loads "r1" [] (first_row ∷ []) second_row edited_row [] []
      (some 2) (some 2) two_unbroken refl refl refl refl refl (apart _ _ refl)

dropped_row_reported_example :
    verify_rows joined no_loads "r1" [] (second_row ∷ []) (some 2)
    ≡ (0, some (break_at joined no_loads "r1" [] second_row (sequence_missing 1)))
dropped_row_reported_example =
    dropped_row_reported joined no_loads "r1" [] [] first_row [] second_row [] [] (some 2) (some 2)
      two_unbroken

truncation_reported_example :
    (b : ChainBreak) × (verify_rows joined no_loads "r1" [] (first_row ∷ []) (some 2) ≡ (1, some b))
    × ((b.reason ≡ unannounced) ⊎ (b.reason ≡ counter_differs 1 2))
truncation_reported_example =
    truncation_reported joined no_loads "r1" [] (first_row ∷ []) second_row [] 2 two_unbroken

abbrev third_event : RoomEvent
third_event = record {
  event_room = "r1";
  event_sequence = 0;
  kind = "message.posted";
  body = null;
  actor = "u1";
  actor_kind = "user";
  id = "e3";
  at = "t";
  schema = 1;
}

append-IsAccepted_example :
    (log' : Log) × (append_with_next_sequence_in_transaction joined empty_dumps true two_log
        third_event
      ≡ ok log')
    × (room_rows log' "r1"
        ≡ room_rows two_log "r1"
          ++ appended_row joined no_loads empty_dumps two_log third_event ∷ [])
    × IsAccepted joined no_loads empty_dumps log' "r1"
    × ((room : String)
        → room ≢ "r1"
        → (lookup str room log'.events ≡ lookup str room two_log.events)
          × (lookup str room log'.counters ≡ lookup str room two_log.counters))
unfolding lookup str contains event_id_taken has_event redaction_marker verify_room verify_rows
append-IsAccepted_example =
    append-IsAccepted joined no_loads empty_dumps two_log third_event
      (record { hashed = ((_, refl), ((_, refl), tt)); accepted = two_accepted }) refl refl refl
