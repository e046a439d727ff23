-- ===== src/Events/Append.antt =====
-- The append of an event to a room, seen by the verifier.
use mathlib.Core.Path.{ap₂}
use xyzzy.Audit.Linked.{Counts, settle-nil}
use xyzzy.Prelude.{
  List, Option, String, [], ap, contains, false, length, lookup, lookup-insert_ne, none, ok, refl,
  str, subst, sym, true, ℕ, ◌++◌, ◌+◌, ◌∙◌, ◌∷◌, ◌≡◌, ◌≢◌,
}
use xyzzy.Json.{Json}
use xyzzy.Audit.{EventRow, Field, announced_redactions, redaction_marker}
use xyzzy.Audit.Verify.{ChainBreak, column_text, settle_announcements}
use xyzzy.Audit.Rooms.{Log, room_rows, verify_room}
use xyzzy.Audit.Pass.{Hashed, Hashed-snoc}
use xyzzy.Audit.Prefix.{last_hash, verify-of_walked, verify_room-length, walk_end, walked-of_verify}
use xyzzy.Events.{RoomEvent, append_with_next_sequence_in_transaction, chained_row, event_id_taken}
use xyzzy.Events.Added.{added_log, added_row, added_walk, append-IsAdded}

module _ (digest : List Field → String) (loads : String → Option Json) (dumps : Json → String) where
  -- A room's log that the verifier accepts, with whatever was redacted in it, and whose rows store
  -- their hashes.
  pub record IsAccepted (log : Log) (room : String) : Type 0 where
    pub hashed : Hashed (room_rows log room)
    pub accepted : verify_room digest loads log room ≡ (length (room_rows log room), none)

  -- The row that an append adds to a room.
  abbrev pub appended_row : Log → RoomEvent → EventRow
  appended_row log event =
      chained_row digest dumps (last_hash (room_rows log event.event_room))
        (record event { event_sequence = length (room_rows log event.event_room) + 1 })

  -- On a known room that the verifier accepts, with whatever was redacted in it, and whose rows store
  -- their hashes, an append under a transaction with a new event id and a payload that is no
  -- redaction marker goes through. It adds one row at the end, chained onto the hash that the last
  -- row stores, leaves every other room's rows and counter alone, and the verifier accepts the room
  -- again.
  pub append-IsAccepted :
      (log : Log) (event : RoomEvent)
      → IsAccepted log event.event_room
      → contains str event.event_room log.rooms ≡ true
      → event_id_taken event.id log.events ≡ false
      → redaction_marker loads (dumps event.body) ≡ none
      → (log' : Log) × (append_with_next_sequence_in_transaction digest dumps true log event
          ≡ ok log')
        × (room_rows log' event.event_room
            ≡ room_rows log event.event_room ++ appended_row log event ∷ [])
        × IsAccepted log' event.event_room
        × ((room : String)
            → room ≢ event.event_room
            → (lookup str room log'.events ≡ lookup str room log.events)
              × (lookup str room log'.counters ≡ lookup str room log.counters))
  append-IsAccepted log event a known fresh plain =
      let room = event.event_room in
      let rows = room_rows log room in
      let (z, walked, empty, counted) =
        walked-of_verify digest loads log room
          (ap (λ (r : ℕ × Option ChainBreak). r.1) a.accepted) in
      let settled : settle_announcements (announced_redactions loads event.kind (dumps event.body))
            z.pending
          ≡ ok [] =
        ap (settle_announcements (announced_redactions loads event.kind (dumps event.body))) empty
        ∙ settle-nil digest loads room (announced_redactions loads event.kind (dumps event.body)) in
      let x =
        append-IsAdded digest loads dumps log event z [] walked a.hashed counted fresh known plain
          settled in
      let (last, numbered, counts) = walk_end digest loads room log.redactions rows z walked in
      let log' = added_log digest loads dumps log z event in
      let row_is : added_row digest loads dumps z event ≡ appended_row log event =
        ap₂ (λ p n. chained_row digest dumps p (record event { event_sequence = n + 1 })) last
          numbered in
      let stored : room_rows log' room ≡ rows ++ appended_row log event ∷ [] =
        x.rows ∙ ap (λ r. rows ++ r ∷ []) row_is in
      (
        log',
        x.appended,
        stored,
        record {
          hashed = subst Hashed (sym stored) (
              Hashed-snoc rows (appended_row log event)
                (column_text (appended_row log event).event_hash) a.hashed
                (unfold chained_row in refl));
          accepted = verify_room-length digest loads log' room (
              verify-of_walked digest loads log' room (added_walk digest loads dumps z event [])
                x.walked_on refl
                (subst (λ c. Counts digest loads c (z.last_sequence + 1)) (sym x.counter) refl));
        },
        λ other ne. (
          lookup-insert_ne str room other (rows ++ added_row digest loads dumps z event ∷ [])
              log.events ne,
          lookup-insert_ne str room other (z.last_sequence + 1) log.counters ne,
        ),
      )
