-- ===== src/Tests/Words.antt =====
-- The erasure's theorem on a room with one message.
use xyzzy.Prelude.{
  List, Option, String, [], contains, inr, ite, lookup, none, ok, refl, some, str, subset, true,
  ◌∷◌, ◌≡◌,
}
use xyzzy.Json.{Fields, Json, field, field_names, get}
use xyzzy.Audit.{
  EventRow, Field, RedactionAnnouncement, announced_redactions, event_chain_hash,
  header_snapshot_hash, marker_of_json, nonempty_text, redaction_marker,
}
use xyzzy.Audit.Verify.{check_hash, check_payload, check_row, settle_announcements, start, walk}
use xyzzy.Audit.Rooms.{Log, check_tail, verify_room, verify_rows}
use xyzzy.Events.{event_id_taken, has_event}
use xyzzy.Erasure.{
  announcement_body, carries_personal_content, erase_room, is_erased, is_redaction_marker,
  list_by_actor, marker_body, redaction_of, redaction_taken,
}
use xyzzy.Erasure.Redacted.{names}
use xyzzy.Erasure.Walked.{find_event}
use xyzzy.Erasure.Step.{IsErasable}
use xyzzy.Erasure.Room.{IsErasedRoom, erase_room-IsErasedRoom}

abbrev hashed_as : List Field → String
hashed_as fs = "h"

abbrev drawn : String → String
drawn event_id = "d1"

abbrev said_row : EventRow
said_row = record {
  event_id = "e1";
  sequence = 1;
  event_type = "human_message_created";
  payload = "P";
  actor_id = "u1";
  actor_type = "human";
  timestamp = "t";
  schema_version = 1;
  prev_hash = some "";
  event_hash = some "h";
}

abbrev one_announcement : RedactionAnnouncement
one_announcement = record {
  announced_id = "d1";
  announced_header_hash = "h";
  announced_original_hash = "h";
}

-- Texts that stand for the three payloads.
unfoldable printed : Json → String
printed j = elim (marker_of_json j) [ none ↦ "A" | some id ↦ "M" ]

unfoldable parsed : String → Option Json
parsed s = ite (str s "P") (some (Json.object (field "content" (Json.text "hello") Fields.end))) (
    ite (str s "M") (some (marker_body "d1"))
      (ite (str s "A") (some (announcement_body (one_announcement ∷ []))) none))

abbrev said_log : Log
said_log = record {
  rooms = "r1" ∷ [];
  counters = ("r1", 1) ∷ [];
  events = ("r1", said_row ∷ []) ∷ [];
  redactions = [];
}

said-accepted : (verify_room hashed_as parsed said_log "r1").1 ≡ none
unfolding verify_room verify_rows check_tail walk start check_row check_payload check_hash
    redaction_marker marker_of_json settle_announcements announced_redactions parsed lookup str
    event_chain_hash field_names get contains subset
said-accepted = refl

said-erased : is_erased hashed_as parsed printed drawn said_row ≡ some true
unfolding is_erased parsed str marker_of_json field_names get contains subset
said-erased = refl

said-ready : IsErasable hashed_as parsed printed drawn said_log "r1" said_row
unfolding find_event lookup str redaction_taken announced_redactions parsed printed marker_of_json
    field_names get contains subset nonempty_text names
said-ready = record {
  stored = refl;
  fresh = refl;
  unnamed = (refl, tt);
  nonempty_id = λ e. cc;
  readable = refl;
  quiet = λ e. cc;
}

erase_room-IsErasedRoom_example :
    (log' : Log) × (erase_room hashed_as parsed printed drawn said_log "r1" "u1" "system" "e2" "t2"
      ≡ ok log')
    × IsErasedRoom hashed_as parsed printed drawn said_log log' "r1" "system" "e2" (said_row ∷ [])
unfolding list_by_actor lookup str contains has_event event_id_taken announced_redactions parsed
    printed marker_of_json field_names get subset redaction_of is_erased carries_personal_content
    is_redaction_marker header_snapshot_hash
erase_room-IsErasedRoom_example =
    erase_room-IsErasedRoom hashed_as parsed printed drawn said_log "r1" "u1" "system" "e2" "t2"
      said-accepted (("h", refl), tt) (refl, tt) (inr (said-erased, said-ready, tt), tt) refl refl
      refl
