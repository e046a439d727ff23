-- ===== src/Erasure/Room.antt =====
-- The erasure in one room, seen by the verifier (`erase_user` of
-- src/multiplayer/services/erasure.py, `verify_event_chain` of src/multiplayer/security/audit.py).
use xyzzy.Audit.Pass.{Hashed}
use xyzzy.Events.{chained_row, event_id_taken}
use xyzzy.Erasure.Announced.{
  Matches, Matches-none, NamedOnce, announced_in-body, find_announcement, nothing_pending,
  settle_all,
}
use xyzzy.Erasure.Stored.{first_of, read_marker}
use xyzzy.Erasure.Step.{IsOwing}
use xyzzy.Erasure.Ready.{Ready}
use xyzzy.Erasure.Loop.{Gone, IsErasedBy, announcements_of, erase_rows-IsErasedBy, headers}
use xyzzy.Events.Added.{added_log, added_row, added_walk, append-IsAdded}
use xyzzy.Audit.Prefix.{verify-of_walked, walked-of_verify}
use xyzzy.Prelude.{
  All, List, Option, String, [], ap, arith, contains, false, lookup, none, ok, refl, some, str,
  subset, subst, sym, true, ◌++◌, ◌+◌, ◌∙◌, ◌∷◌, ◌≡◌, ◌≢◌,
}
use xyzzy.Json.{Json, field_names, get}
use xyzzy.Audit.{
  EventRow, Field, RedactionAnnouncement, announced_in, announced_redactions, marker_of_json,
  redaction_marker,
}
use xyzzy.Audit.Verify.{Pending, settle_announcements}
use xyzzy.Audit.Rooms.{Log, room_rows, verify_room}
use xyzzy.Audit.Linked.{Counts}
use xyzzy.Erasure.{
  announce, announcement_body, announcing_event, erase_room, lift_event, list_by_actor,
}
use xyzzy.Erasure.Walked.{Separated, find_event}

find_event-append :
    (e : String) (rows : List EventRow) (new row : EventRow)
    → find_event e rows ≡ some row
    → find_event e (rows ++ new ∷ []) ≡ some row
unfolding find_event
find_event-append e [] new row h = cc
find_event-append e (r ∷ rows) new row h = ground (arith, find_event-append e rows new row)

no_owed : (j : String) (p : List (String × Pending)) → p ≡ [] → Matches (lookup str j p) none
unfolding lookup
no_owed j p h = subst (λ q. Matches (lookup str j q) none) (sym h) tt

first_of-none : (o : Option RedactionAnnouncement) → first_of o none ≡ o
first_of-none none = refl
first_of-none (some a) = refl

body_announced : (as' : List RedactionAnnouncement) → marker_of_json (announcement_body as') ≡ none
unfolding marker_of_json field_names get contains subset str
body_announced as' = refl

read_announced :
    (loads : String → Option Json) (s : String) (j : Json)
    → loads s ≡ some j
    → announced_redactions loads "event.redacted" s ≡ announced_in j
unfolding announced_redactions str
read_announced loads s j h = ground arith

module _ (digest : List Field → String) (loads : String → Option Json) (dumps : Json → String)
    (new_id : String → String) where
  Gone-append :
      (rows mine : List EventRow) (new : EventRow)
      → Gone digest loads dumps new_id rows mine
      → Gone digest loads dumps new_id (rows ++ new ∷ []) mine
  Gone-append rows [] new g = tt
  Gone-append rows (row ∷ mine) new g =
      (λ e. find_event-append row.event_id rows new _ (g.0 e), Gone-append rows mine new g.1)

  -- The room's rows with their headers as they were, followed by the one event that names the
  -- redactions; by none where there is nothing to name.
  abbrev pub IsTold :
      List EventRow → List EventRow → String → String → List RedactionAnnouncement → Type 0
  IsTold before after operator_id id [] = headers after ≡ headers before
  IsTold before after operator_id id (a ∷ rest) =
      (marked : List EventRow) × (told : EventRow) × (after ≡ marked ++ told ∷ [])
      × (headers marked ≡ headers before)
      × (told.event_id ≡ id)
      × (told.actor_id ≡ operator_id)
      × (announced_redactions loads told.event_type told.payload ≡ a ∷ rest)

  -- What the erasure in a room leaves: a log that the verifier accepts, without the user's words, in
  -- which one event names the redactions.
  pub record IsErasedRoom (log log' : Log) (room operator_id id : String) (mine : List EventRow)
      : Type 0 where
    pub accepted : (verify_room digest loads log' room).1 ≡ none
    pub without : Gone digest loads dumps new_id (room_rows log' room) mine
    pub told :
        IsTold
          (room_rows log room)
          (room_rows log' room)
          operator_id
          id
          (announcements_of digest loads dumps new_id mine)

  announced-IsErasedRoom :
      (log₀ log : Log) (room operator_id id at : String) (mine : List EventRow)
      (a : RedactionAnnouncement) (rest : List RedactionAnnouncement)
      → IsOwing digest loads dumps new_id log room
          (λ j. first_of (find_announcement j (a ∷ rest)) none)
      → NamedOnce (a ∷ rest)
      → All (λ (x : RedactionAnnouncement). x.announced_id ≢ "") (a ∷ rest)
      → Gone digest loads dumps new_id (room_rows log room) mine
      → event_id_taken id log.events ≡ false
      → contains str room log.rooms ≡ true
      → headers (room_rows log room) ≡ headers (room_rows log₀ room)
      → a ∷ rest ≡ announcements_of digest loads dumps new_id mine
      → loads (dumps (announcement_body (a ∷ rest))) ≡ some (announcement_body (a ∷ rest))
      → (log' : Log) × (announce digest loads dumps new_id log room operator_id (a ∷ rest) id at
          ≡ ok log')
        × IsErasedRoom log₀ log' room operator_id id mine
  unfolding announce
  announced-IsErasedRoom log₀ log room operator_id id at mine a rest o once ids g fresh known same
        named read =
      let event = announcing_event digest loads dumps new_id room operator_id (a ∷ rest) id at in
      let body = announcement_body (a ∷ rest) in
      let announced : announced_redactions loads "event.redacted" (dumps body) ≡ a ∷ rest =
        read_announced loads (dumps body) body read ∙ announced_in-body (a ∷ rest) ids in
      let settled : settle_announcements (announced_redactions loads "event.redacted" (dumps body))
            o.end.pending
          ≡ ok [] =
        ap (λ rs. settle_announcements rs o.end.pending) announced
        ∙ settle_all (a ∷ rest) o.end.pending once (λ j.
          subst (Matches (lookup str j o.end.pending))
            (first_of-none (find_announcement j (a ∷ rest))) (o.owes j)) in
      let plain : redaction_marker loads (dumps body) ≡ none =
        read_marker loads (dumps body) body read ∙ body_announced (a ∷ rest) in
      let x =
        append-IsAdded digest loads dumps log event o.end [] o.walked o.hashed o.counted fresh known
          plain settled in
      let log' = added_log digest loads dumps log o.end event in
      (
        log',
        ap (lift_event digest loads dumps new_id) x.appended,
        record {
          accepted =
              verify-of_walked digest loads log' room (added_walk digest loads dumps o.end event [])
                x.walked_on refl
                (subst (λ c. Counts digest loads c (o.end.last_sequence + 1)) (sym x.counter) refl);
          without =
              subst (λ rs. Gone digest loads dumps new_id rs mine) (sym x.rows)
                (Gone-append (room_rows log room) mine (added_row digest loads dumps o.end event)
                  g);
          told = subst (IsTold (room_rows log₀ room) (room_rows log' room) operator_id id) named (
            room_rows log room,
            added_row digest loads dumps o.end event,
            x.rows,
            same,
            unfold chained_row in refl,
            unfold chained_row in refl,
            unfold chained_row in announced,
          );
        },
      )

  concluded :
      (log log₁ : Log) (room operator_id id at : String) (mine : List EventRow)
      (announced : List RedactionAnnouncement)
      → IsErasedBy digest loads dumps new_id log room (λ _. none) mine log₁ announced
      → event_id_taken id log₁.events ≡ false
      → contains str room log₁.rooms ≡ true
      → loads (dumps (announcement_body announced)) ≡ some (announcement_body announced)
      → (log' : Log) × (announce digest loads dumps new_id log₁ room operator_id announced id at
          ≡ ok log')
        × IsErasedRoom log log' room operator_id id mine
  unfolding announce
  concluded log log₁ room operator_id id at mine [] x fresh known read = (
    log₁,
    refl,
    record {
      accepted =
          verify-of_walked digest loads log₁ room x.owing.end x.owing.walked
            (nothing_pending x.owing.end.pending
              (λ j. Matches-none (lookup str j x.owing.end.pending) (x.owing.owes j)))
            x.owing.counted;
      without = x.gone;
      told =
          subst (IsTold (room_rows log room) (room_rows log₁ room) operator_id id) x.named
            x.same_headers;
    },
  )
  concluded log log₁ room operator_id id at mine (a ∷ rest) x fresh known read =
      announced-IsErasedRoom log log₁ room operator_id id at mine a rest x.owing x.once x.ids x.gone
        fresh known x.same_headers x.named read

  -- Where the verifier accepts a known room's log, with whatever was redacted in it before, the erasure
  -- of a user there goes through and leaves a log that the verifier accepts: each of the user's rows
  -- whose payload was personal now holds the marker of its redaction, no column but payloads has
  -- changed, and, if there was such a row, exactly one event is added, at the end, under the given id
  -- and the operator's name, that announces exactly these redactions. The room's rows have ids of
  -- their own and store a hash; each row to be redacted has a payload that is an object, is no
  -- announcement itself, and gets a new redaction id that is not empty; the id of the added event is
  -- new; and the parser reads back the markers and the announcement that were printed.
  pub erase_room-IsErasedRoom :
      (log : Log) (room user_id operator_id id at : String)
      → (verify_room digest loads log room).1 ≡ none
      → Hashed (room_rows log room)
      → Separated (room_rows log room)
      → Ready digest loads dumps new_id log room
          (list_by_actor digest loads dumps new_id (room_rows log room) user_id)
      → event_id_taken id log.events ≡ false
      → contains str room log.rooms ≡ true
      → loads (
          dumps (
            announcement_body (
              announcements_of digest loads dumps new_id
                (list_by_actor digest loads dumps new_id (room_rows log room) user_id))))
        ≡ some (
            announcement_body (
              announcements_of digest loads dumps new_id
                (list_by_actor digest loads dumps new_id (room_rows log room) user_id)))
      → (log' : Log) × (erase_room digest loads dumps new_id log room user_id operator_id id at
          ≡ ok log')
        × IsErasedRoom log log' room operator_id id
            (list_by_actor digest loads dumps new_id (room_rows log room) user_id)
  unfolding erase_room
  erase_room-IsErasedRoom log room user_id operator_id id at v hashed separated ready fresh known
        read =
      let mine = list_by_actor digest loads dumps new_id (room_rows log room) user_id in
      let (z, walked, empty, counted) = walked-of_verify digest loads log room v in
      let (log₁, announced, done, x) =
        erase_rows-IsErasedBy digest loads dumps new_id log room (λ _. none) mine
          (record {
            end = z;
            walked = walked;
            owes = λ j. no_owed j z.pending empty;
            separated = separated;
            hashed = hashed;
            counted = counted;
          })
          ready in
      let read' : loads (dumps (announcement_body announced)) ≡ some (announcement_body announced) =
        subst (λ as'. loads (dumps (announcement_body as')) ≡ some (announcement_body as'))
          (sym x.named) read in
      let (log', told, e) =
        concluded log log₁ room operator_id id at mine announced x (x.same_taken id ∙ fresh)
          (ap (contains str room) x.same_rooms ∙ known) read' in
      (log', ground arith, e)
