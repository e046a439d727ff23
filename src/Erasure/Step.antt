-- ===== src/Erasure/Step.antt =====
-- One pass of the loop over the user's rows of a room (`erase_user`).
use xyzzy.Audit.Pass.{Hashed}
use xyzzy.Erasure.Owing.{entry_of}
use xyzzy.Audit.Verify.{Walk, start, walk}
use xyzzy.Audit.Linked.{Counts}
use xyzzy.Erasure.Stored.{
  Hashed-redact, Matches-one, Separated-redact, body_marker, body_silent, free_id, read_marker,
  read_silent, room_rows-redact,
}
use xyzzy.Erasure.Announced.{Matches, nonempty}
use xyzzy.Prelude.{
  List, Option, String, [], ap, arith, false, ite, lookup, none, ok, refl, some, str, subst, sym,
  ◌++◌, ◌∙◌, ◌∷◌, ◌≡◌, ◌≢◌,
}
use xyzzy.Json.{Json}
use xyzzy.Audit.{
  EventRow, Field, RedactionAnnouncement, RedactionRow, announced_redactions, redaction_marker,
}
use xyzzy.Audit.Rooms.{Log, room_rows}
use xyzzy.Erasure.{
  announcement_for, create_redaction, erase_event, marker_body, marker_for,
  redact_payload_in_transaction, redact_rows, redaction_of, redaction_taken,
}
use xyzzy.Erasure.Redacted.{names}
use xyzzy.Erasure.Walked.{Separated, Unnamed, find_event, walk-redacted}

module _ (digest : List Field → String) (loads : String → Option Json) (dumps : Json → String)
    (new_id : String → String) where
  abbrev pub new_redaction : EventRow → RedactionRow
  new_redaction row = redaction_of digest loads dumps new_id row

  abbrev pub marker : EventRow → String
  marker row = marker_for digest loads dumps new_id row

  -- What the loop needs of a row that it redacts: its id and its redaction's are fresh, its event is
  -- no announcement, and the marker can be read back.
  pub record IsErasable (log : Log) (room : String) (row : EventRow) : Type 0 where
    pub stored : find_event row.event_id (room_rows log room) ≡ some row
    pub fresh : redaction_taken (new_id row.event_id) row.event_id log.redactions ≡ false
    pub unnamed : Unnamed loads (new_id row.event_id) (room_rows log room)
    pub nonempty_id : new_id row.event_id ≢ ""
    pub readable : loads (marker row) ≡ some (marker_body (new_id row.event_id))
    pub quiet : row.event_type ≢ "event.redacted"

  -- A room's log on which the walk finds pending what `owed` gives.
  pub record IsOwing (log : Log) (room : String) (owed : String → Option RedactionAnnouncement)
      : Type 0 where
    pub end : Walk
    pub walked : walk digest loads room log.redactions (room_rows log room) start ≡ (end, none)
    pub owes : (j : String) → Matches (lookup str j end.pending) (owed j)
    pub separated : Separated (room_rows log room)
    pub hashed : Hashed (room_rows log room)
    pub counted : Counts digest loads (lookup str room log.counters) end.last_sequence

  -- The rows to come are redacted under ids of their own.
  abbrev pub Apart : EventRow → List EventRow → Type 0
  Apart row [] = Unit {0}
  Apart row (r ∷ rows) =
      (row.event_id ≢ r.event_id) × (new_id row.event_id ≢ new_id r.event_id) × Apart row rows

  pub marker-read :
      (row : EventRow)
      → new_id row.event_id ≢ ""
      → loads (marker row) ≡ some (marker_body (new_id row.event_id))
      → redaction_marker loads (marker row) ≡ some (new_id row.event_id)
  marker-read row ne h =
      read_marker loads (marker row) (marker_body (new_id row.event_id)) h
      ∙ (body_marker (new_id row.event_id) ∙ nonempty (new_id row.event_id) ne)

  marker-silent :
      (row : EventRow) (event_type : String)
      → loads (marker row) ≡ some (marker_body (new_id row.event_id))
      → announced_redactions loads event_type (marker row) ≡ []
  marker-silent row event_type h =
      read_silent loads event_type (marker row) (marker_body (new_id row.event_id)) h
        (body_silent (new_id row.event_id))

  pub Unnamed-redact :
      (row : EventRow) (id e : String) (rows : List EventRow)
      → loads (marker row) ≡ some (marker_body (new_id row.event_id))
      → Unnamed loads id rows
      → Unnamed loads id (redact_rows e (marker row) rows)
  unfolding redact_rows names
  Unnamed-redact row id e [] h u = tt
  Unnamed-redact row id e (r ∷ rows) h u =
      by_id (str r.event_id e) (Unnamed-redact row id e rows h u.1)
    where
      by_id :
          (d : Dec (r.event_id ≡ e))
          → Unnamed loads id (redact_rows e (marker row) rows)
          → Unnamed loads id (
              ite d
                (record r { payload = marker row } ∷ redact_rows e (marker row) rows)
                (r ∷ redact_rows e (marker row) rows))
      by_id (yes _) later = (ap (names id) (marker-silent row r.event_type h), later)
      by_id (no _) later = (u.0, later)

  -- One more row redacted.
  pub erase-IsOwing :
      (log : Log) (room : String) (owed : String → Option RedactionAnnouncement) (row : EventRow)
      → IsOwing log room owed
      → IsErasable log room row
      → redaction_marker loads row.payload ≡ none
      → (log' : Log) × (erase_event digest loads dumps new_id log row ≡ ok log')
        × (log'.redactions ≡ log.redactions ++ new_redaction row ∷ [])
        × (room_rows log' room ≡ redact_rows row.event_id (marker row) (room_rows log room))
        × (log'.events ≡ redact_payload_in_transaction row.event_id (marker row) log.events)
        × (log'.counters ≡ log.counters)
        × (log'.rooms ≡ log.rooms)
        × IsOwing log' room (λ j.
          ite
            (str j (new_id row.event_id))
            (some (announcement_for digest loads dumps new_id (new_redaction row)))
            (owed j))
  unfolding erase_event create_redaction redaction_of
  erase-IsOwing log room owed row o x plain =
      let reds = log.redactions ++ new_redaction row ∷ [] in
      let rows = room_rows log room in
      let log' = record log {
        redactions = reds;
        events = redact_payload_in_transaction row.event_id (marker row) log.events;
      } in
      let free = free_id (new_id row.event_id) row.event_id log.redactions x.fresh in
      let fresh = x.fresh in
      let (end', walked', m) =
        walk-redacted digest loads room log.redactions (new_redaction row) free row (marker row)
          (marker-read row x.nonempty_id x.readable) refl refl refl plain x.quiet rows start o.end
          o.separated x.unnamed x.stored o.walked in
      let rows_are : room_rows log' room ≡ redact_rows row.event_id (marker row) rows =
        room_rows-redact log reds room row.event_id (marker row) in
      (
        log',
        ground arith,
        refl,
        rows_are,
        refl,
        refl,
        refl,
        record {
          end = end';
          walked = ap (λ rs. walk digest loads room reds rs start) rows_are ∙ walked';
          owes = λ j.
              subst
                (λ q. Matches q (
                  ite (str j (new_id row.event_id))
                    (some (announcement_for digest loads dumps new_id (new_redaction row)))
                    (owed j)))
                (sym (m.adds j))
                (Matches-one (new_id row.event_id) j (entry_of row (new_redaction row))
                  (announcement_for digest loads dumps new_id (new_redaction row)) refl refl
                  (lookup str j o.end.pending) (owed j) (o.owes j));
          separated =
              subst Separated (sym rows_are)
                (Separated-redact row.event_id (marker row) rows o.separated);
          hashed =
              subst Hashed (sym rows_are) (Hashed-redact row.event_id (marker row) rows o.hashed);
          counted =
              subst (Counts digest loads (lookup str room log.counters)) (sym m.same_sequence)
                o.counted;
        },
      )
