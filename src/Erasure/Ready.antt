-- ===== src/Erasure/Ready.antt =====
-- What the loop over the user's rows needs of the rows to come.
use xyzzy.Prelude.{
  List, Option, String, [], ap, arith, false, inl, inr, none, refl, some, str, subst, sym, true,
  ◌++◌, ◌∙◌, ◌∷◌, ◌≡◌, ◌≢◌, ◌⊎◌,
}
use xyzzy.Json.{Json}
use xyzzy.Audit.{EventRow, Field, redaction_marker}
use xyzzy.Audit.Rooms.{Log, room_rows}
use xyzzy.Events.{event_id_taken}
use xyzzy.Erasure.{
  is_erased, is_redaction_marker, marker_body, redact_payload_in_transaction, redact_rows,
  redaction_of, redaction_taken,
}
use xyzzy.Erasure.Walked.{Unnamed, find_event}
use xyzzy.Erasure.Stored.{find_event-other, has_event-redact, still_free}
use xyzzy.Erasure.Step.{Apart, IsErasable, Unnamed-redact, marker, new_redaction}

pub find_event-redacted :
    (payload : String) (row : EventRow) (rows : List EventRow)
    → find_event row.event_id rows ≡ some row
    → find_event row.event_id (redact_rows row.event_id payload rows)
      ≡ some (record row { payload = payload })
unfolding find_event redact_rows
find_event-redacted payload row [] h = cc
find_event-redacted payload row (r ∷ rows) h =
    let later = find_event-redacted payload row rows in
    elim (str r.event_id row.event_id) [
      | yes e ↦ let same : r ≡ row = ground arith in ground arith
      | no _ ↦ ground arith
    ]

pub taken-redact :
    (id payload e : String) (events : List (String × List EventRow))
    → event_id_taken e (redact_payload_in_transaction id payload events) ≡ event_id_taken e events
unfolding event_id_taken redact_payload_in_transaction
taken-redact id payload e [] = refl
taken-redact id payload e ((room, rows) ∷ rest) =
    ground (arith, has_event-redact id payload e rows, taken-redact id payload e rest)

module _ (digest : List Field → String) (loads : String → Option Json) (dumps : Json → String)
    (new_id : String → String) where
  -- A row whose payload is personal holds no marker.
  pub erased-plain :
      (row : EventRow)
      → is_erased digest loads dumps new_id row ≡ some true
      → redaction_marker loads row.payload ≡ none
  unfolding is_erased is_redaction_marker redaction_marker
  erased-plain row h = ground arith

  IsErasable-later :
      (log log' : Log) (room : String) (row r : EventRow)
      → log'.redactions ≡ log.redactions ++ new_redaction digest loads dumps new_id row ∷ []
      → room_rows log' room
        ≡ redact_rows row.event_id (marker digest loads dumps new_id row) (room_rows log room)
      → loads (marker digest loads dumps new_id row) ≡ some (marker_body (new_id row.event_id))
      → row.event_id ≢ r.event_id
      → new_id row.event_id ≢ new_id r.event_id
      → IsErasable digest loads dumps new_id log room r
      → IsErasable digest loads dumps new_id log' room r
  unfolding redaction_of
  IsErasable-later log log' room row r reds rows readable ne ne' x = record {
    stored =
        ap (find_event r.event_id) rows
        ∙ (find_event-other row.event_id (marker digest loads dumps new_id row) r.event_id
              (room_rows log room) (λ e. ne (sym e))
            ∙ x.stored);
    fresh =
        ap (redaction_taken (new_id r.event_id) r.event_id) reds
        ∙ still_free (new_id r.event_id) r.event_id (new_redaction digest loads dumps new_id row)
            log.redactions ne' ne x.fresh;
    unnamed = subst (Unnamed loads (new_id r.event_id)) (sym rows) (
        Unnamed-redact digest loads dumps new_id row (new_id r.event_id) row.event_id
          (room_rows log room) readable x.unnamed);
    nonempty_id = x.nonempty_id;
    readable = x.readable;
    quiet = x.quiet;
  }

  -- Each of the user's rows is left alone, or can be redacted.
  abbrev pub Ready : Log → String → List EventRow → Type 0
  Ready log room [] = Unit {0}
  Ready log room (row ∷ rows) =
      ((is_erased digest loads dumps new_id row ≡ some false)
        ⊎ ((is_erased digest loads dumps new_id row ≡ some true)
            × IsErasable digest loads dumps new_id log room row
            × Apart digest loads dumps new_id row rows))
      × Ready log room rows

  pub Ready-later :
      (log log' : Log) (room : String) (row : EventRow) (rows : List EventRow)
      → log'.redactions ≡ log.redactions ++ new_redaction digest loads dumps new_id row ∷ []
      → room_rows log' room
        ≡ redact_rows row.event_id (marker digest loads dumps new_id row) (room_rows log room)
      → loads (marker digest loads dumps new_id row) ≡ some (marker_body (new_id row.event_id))
      → Apart digest loads dumps new_id row rows
      → Ready log room rows
      → Ready log' room rows
  Ready-later log log' room row [] reds rs readable a r = tt
  Ready-later log log' room row (x ∷ rows) reds rs readable a r = (
    elim r.0 [
      | inl skipped ↦ inl skipped
      | inr (erased, e, apart) ↦
          inr (erased, IsErasable-later log log' room row x reds rs readable a.0 a.1 e, apart)
    ],
    Ready-later log log' room row rows reds rs readable a.2 r.1,
  )

  -- No row has an event, or a redaction, of this id.
  abbrev pub Elsewhere : String → List EventRow → Type 0
  Elsewhere e [] = Unit {0}
  Elsewhere e (row ∷ rows) = (e ≢ row.event_id) × Elsewhere e rows

  abbrev pub Unused : String → List EventRow → Type 0
  Unused j [] = Unit {0}
  Unused j (row ∷ rows) = (j ≢ new_id row.event_id) × Unused j rows

  pub Apart-Elsewhere :
      (row : EventRow) (rows : List EventRow)
      → Apart digest loads dumps new_id row rows
      → Elsewhere row.event_id rows × Unused (new_id row.event_id) rows
  Apart-Elsewhere row [] a = (tt, tt)
  Apart-Elsewhere row (r ∷ rows) a =
      let (x, y) = Apart-Elsewhere row rows a.2 in ((a.0, x), (a.1, y))
