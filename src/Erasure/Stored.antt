-- ===== src/Erasure/Stored.antt =====
-- The stored rows after a payload is redacted, and what a marker reads as.
use xyzzy.Audit.Pass.{Hashed}
use xyzzy.Prelude.{
  List, Option, String, [], arith, contains, false, ite, lookup, map_found, none, refl, some, str,
  subset, sym, ◌++◌, ◌∙◌, ◌∷◌, ◌≡◌, ◌≢◌,
}
use xyzzy.Json.{Json, field_names, get}
use xyzzy.Audit.{
  EventRow, RedactionAnnouncement, RedactionRow, announced_in, announced_redactions, announcements,
  marker_of_json, nonempty_text, redaction_marker,
}
use xyzzy.Audit.Verify.{Pending}
use xyzzy.Audit.Rooms.{Log, room_rows}
use xyzzy.Events.{has_event}
use xyzzy.Erasure.{marker_body, redact_payload_in_transaction, redact_rows, redaction_taken}
use xyzzy.Erasure.Redacted.{has_redaction}
use xyzzy.Erasure.Walked.{Separated, find_event}
use xyzzy.Erasure.Announced.{Matches}

abbrev pub first_of :
    Option RedactionAnnouncement → Option RedactionAnnouncement → Option RedactionAnnouncement
first_of (some a) o = some a
first_of none o = o

pub find_event-other :
    (id payload e : String) (rows : List EventRow)
    → e ≢ id
    → find_event e (redact_rows id payload rows) ≡ find_event e rows
unfolding find_event redact_rows
find_event-other id payload e [] ne = refl
find_event-other id payload e (row ∷ rows) ne =
    let later = find_event-other id payload e rows ne in
    elim (str row.event_id id) [
      | yes z ↦ let apart : row.event_id ≢ e = λ z'. ne (sym z' ∙ z) in ground arith
      | no _ ↦ ground arith
    ]

pub has_event-redact :
    (id payload e : String) (rows : List EventRow)
    → has_event e (redact_rows id payload rows) ≡ has_event e rows
unfolding has_event redact_rows
has_event-redact id payload e [] = refl
has_event-redact id payload e (row ∷ rows) = ground (arith, has_event-redact id payload e rows)

pub Separated-redact :
    (id payload : String) (rows : List EventRow)
    → Separated rows
    → Separated (redact_rows id payload rows)
unfolding redact_rows
Separated-redact id payload [] s = tt
Separated-redact id payload (row ∷ rows) s =
    by_id (str row.event_id id) (has_event-redact id payload row.event_id rows ∙ s.0)
      (Separated-redact id payload rows s.1)
  where
    by_id :
        (d : Dec (row.event_id ≡ id))
        → has_event row.event_id (redact_rows id payload rows) ≡ false
        → Separated (redact_rows id payload rows)
        → Separated (
            ite d
              (record row { payload = payload } ∷ redact_rows id payload rows)
              (row ∷ redact_rows id payload rows))
    by_id (yes _) fresh later = (fresh, later)
    by_id (no _) fresh later = (fresh, later)

pub Hashed-redact :
    (id payload : String) (rows : List EventRow)
    → Hashed rows
    → Hashed (redact_rows id payload rows)
unfolding redact_rows
Hashed-redact id payload [] h = tt
Hashed-redact id payload (row ∷ rows) h =
    by_id (str row.event_id id) (Hashed-redact id payload rows h.1)
  where
    by_id :
        (d : Dec (row.event_id ≡ id))
        → Hashed (redact_rows id payload rows)
        → Hashed (
            ite d
              (record row { payload = payload } ∷ redact_rows id payload rows)
              (row ∷ redact_rows id payload rows))
    by_id (yes _) later = (h.0, later)
    by_id (no _) later = (h.0, later)

pub lookup-redact_payload :
    (id payload room : String) (events : List (String × List EventRow))
    → lookup str room (redact_payload_in_transaction id payload events)
      ≡ map_found (redact_rows id payload) (lookup str room events)
unfolding lookup redact_payload_in_transaction
lookup-redact_payload id payload room [] = refl
lookup-redact_payload id payload room ((r, rows) ∷ rest) =
    ground (arith, lookup-redact_payload id payload room rest)

pub free_id :
    (id e : String) (reds : List RedactionRow)
    → redaction_taken id e reds ≡ false
    → has_redaction id reds ≡ false
unfolding redaction_taken has_redaction
free_id id e [] h = refl
free_id id e (r ∷ reds) h = ground (arith, free_id id e reds)

pub still_free :
    (id e : String) (new : RedactionRow) (reds : List RedactionRow)
    → new.redaction_id ≢ id
    → new.redacted_event_id ≢ e
    → redaction_taken id e reds ≡ false
    → redaction_taken id e (reds ++ new ∷ []) ≡ false
unfolding redaction_taken
still_free id e new [] ne ne' h = ground arith
still_free id e new (r ∷ reds) ne ne' h = ground (arith, still_free id e new reds ne ne')

pub room_rows-redact :
    (log : Log) (reds : List RedactionRow) (room id payload : String)
    → room_rows
        (record log {
          redactions = reds;
          events = redact_payload_in_transaction id payload log.events;
        })
        room
      ≡ redact_rows id payload (room_rows log room)
unfolding redact_rows
room_rows-redact log reds room id payload =
    ground (arith, lookup-redact_payload id payload room log.events)

pub Matches-one :
    (id j : String) (p : Pending) (a : RedactionAnnouncement)
    → a.announced_header_hash ≡ p.expected_header_hash
    → a.announced_original_hash ≡ p.expected_original_hash
    → (x : Option Pending) (y : Option RedactionAnnouncement) → Matches x y
    → Matches (ite (str j id) (some p) x) (ite (str j id) (some a) y)
Matches-one id j p a h h' x y m = by_id (str j id)
  where
    by_id : (d : Dec (j ≡ id)) → Matches (ite d (some p) x) (ite d (some a) y)
    by_id (yes _) = (h, h')
    by_id (no _) = m

pub read_marker :
    (loads : String → Option Json) (s : String) (j : Json)
    → loads s ≡ some j
    → redaction_marker loads s ≡ marker_of_json j
unfolding redaction_marker
read_marker loads s j h = ground arith

pub body_marker : (id : String) → marker_of_json (marker_body id) ≡ nonempty_text (Json.text id)
unfolding marker_of_json get field_names contains subset str
body_marker id = refl

pub read_silent :
    (loads : String → Option Json) (event_type s : String) (j : Json)
    → loads s ≡ some j
    → announced_in j ≡ []
    → announced_redactions loads event_type s ≡ []
unfolding announced_redactions
read_silent loads event_type s j h e = ground arith

pub body_silent : (id : String) → announced_in (marker_body id) ≡ []
unfolding announced_in announcements get str
body_silent id = refl
