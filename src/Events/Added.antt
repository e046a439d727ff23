-- ===== src/Events/Added.antt =====
-- The append of an event to a room that the verifier walks without a break.
use xyzzy.Audit.Rooms.{Log, room_rows}
use xyzzy.Audit.Linked.{Counts}
use xyzzy.Prelude.{
  List, Option, String, [], ap, arith, contains, false, insert, lookup, lookup-insert_self, none,
  ok, refl, some, str, subst, sym, true, ℕ, ◌++◌, ◌+◌, ◌-◌, ◌<◌, ◌∙◌, ◌∷◌, ◌≡◌, ◌≤◌,
}
use xyzzy.Json.{Json}
use xyzzy.Audit.{
  EventRow, Field, RedactionRow, announced_redactions, chain_material, event_chain_hash,
  redaction_marker,
}
use xyzzy.Audit.Verify.{
  ChainBreak, Pending, Walk, check_hash, check_payload, column_text, settle_announcements, start,
  walk,
}
use xyzzy.Events.{
  RoomEvent, append_with_next_sequence_in_transaction, at_sequence, chained_row, event_id_taken,
  insert_chained, insert_row, next_sequence, predecessor_hash,
}
use xyzzy.Audit.Pass.{Hashed, IsPass, pass-event_hash, walk-join, walk-step}

pub room_rows-stored :
    (log : Log) (room : String) (rows : List EventRow)
    → lookup str room log.events ≡ some rows
    → room_rows log room ≡ rows
room_rows-stored log room rows h = ground arith

module _ (digest : List Field → String) (loads : String → Option Json) (dumps : Json → String) where
  next_sequence-Counts :
      (log : Log) (room : String) (n : ℕ)
      → Counts digest loads (lookup str room log.counters) n
      → next_sequence digest dumps log room ≡ n + 1
  next_sequence-Counts log room n h = ground arith

  module _ (room : String) (reds : List RedactionRow) where
    walk-rises :
        (rows : List EventRow) (w z : Walk)
        → walk digest loads room reds rows w ≡ (z, none)
        → w.last_sequence ≤ z.last_sequence
    unfolding walk
    walk-rises [] w z h =
        let same : w.last_sequence ≡ z.last_sequence =
          ap (λ (r : Walk × Option ChainBreak). r.0.last_sequence) h in
        omega arith
    walk-rises (row ∷ rows) w z h =
        let (w₁, x, rest) = walk-step digest loads room reds row rows w z h in
        let later = walk-rises rows w₁ z rest in
        let (_, last) = pass-event_hash digest loads room reds row w w₁ x in
        let next = x.next in omega arith

    -- The last row is found at its sequence, and stores the hash that the walk ends with.
    walk-predecessor :
        (rows : List EventRow) (w z : Walk)
        → walk digest loads room reds rows w ≡ (z, none)
        → Hashed rows
        → w.last_sequence < z.last_sequence
        → (row : EventRow) × (at_sequence z.last_sequence rows ≡ some row)
          × (row.event_hash ≡ some z.prev_hash)
    unfolding walk at_sequence
    walk-predecessor [] w z h s lt =
        let same : w.last_sequence ≡ z.last_sequence =
          ap (λ (r : Walk × Option ChainBreak). r.0.last_sequence) h in
        absurd (omega arith)
    walk-predecessor (row ∷ []) w z h s lt =
        let (w₁, x, rest) = walk-step digest loads room reds row [] w z h in
        let same : w₁ ≡ z = ground arith in
        let (hash, last) = pass-event_hash digest loads room reds row w w₁ x in
        let last' : z.last_sequence ≡ row.sequence =
          ap (λ (k : Walk). k.last_sequence) (sym same) ∙ last in
        let hash' : z.prev_hash ≡ column_text row.event_hash =
          ap (λ (k : Walk). k.prev_hash) (sym same) ∙ hash in
        let (h₀, stored) = s.0 in (row, ground arith, ground arith)
    walk-predecessor (row ∷ row' ∷ rows) w z h s lt =
        let (w₁, x, rest) = walk-step digest loads room reds row (row' ∷ rows) w z h in
        let (_, last) = pass-event_hash digest loads room reds row w w₁ x in
        let (w₂, x', rest') = walk-step digest loads room reds row' rows w₁ z rest in
        let (_, last') = pass-event_hash digest loads room reds row' w₁ w₂ x' in
        let rises = walk-rises rows w₂ z rest' in
        let next' = x'.next in
        let less : w₁.last_sequence < z.last_sequence = omega arith in
        let (found, at, hash) = walk-predecessor (row' ∷ rows) w₁ z rest s.1 less in
        let apart : row.sequence < z.last_sequence = omega arith in (found, ground arith, hash)

    walk-insert :
        (rows : List EventRow) (new : EventRow) (w z : Walk)
        → walk digest loads room reds rows w ≡ (z, none)
        → z.last_sequence < new.sequence
        → insert_row new rows ≡ some (rows ++ new ∷ [])
    unfolding walk insert_row
    walk-insert [] new w z h lt = refl
    walk-insert (row ∷ rows) new w z h lt =
        let (w₁, x, rest) = walk-step digest loads room reds row rows w z h in
        let (_, last) = pass-event_hash digest loads room reds row w w₁ x in
        let rises = walk-rises rows w₁ z rest in
        let later = walk-insert rows new w₁ z rest lt in
        let less : row.sequence < new.sequence = omega arith in ground arith

    walk-snoc :
        (rows : List EventRow) (new : EventRow) (w z z₁ : Walk)
        → walk digest loads room reds rows w ≡ (z, none)
        → IsPass digest loads room reds new z z₁
        → walk digest loads room reds (rows ++ new ∷ []) w ≡ (z₁, none)
    unfolding walk
    walk-snoc [] new w z z₁ h x =
        let same : w ≡ z = ground arith in
        walk-join digest loads room reds new [] w z₁ z₁
          (subst (λ k. IsPass digest loads room reds new k z₁) (sym same) x) refl
    walk-snoc (row ∷ rows) new w z z₁ h x =
        let (w₁, y, rest) = walk-step digest loads room reds row rows w z h in
        walk-join digest loads room reds row (rows ++ new ∷ []) w w₁ z₁ y
          (walk-snoc rows new w₁ z z₁ rest x)

    walk-predecessor_hash :
        (rows : List EventRow) (z : Walk)
        → walk digest loads room reds rows start ≡ (z, none)
        → Hashed rows
        → predecessor_hash (z.last_sequence + 1) rows ≡ ok z.prev_hash
    unfolding predecessor_hash walk start
    walk-predecessor_hash [] z h s =
        let same : start ≡ z = ap (λ (r : Walk × Option ChainBreak). r.0) h in
        subst (λ (k : Walk). predecessor_hash (k.last_sequence + 1) [] ≡ ok k.prev_hash) same refl
    walk-predecessor_hash (row ∷ rows) z h s =
        let (w₁, x, rest) = walk-step digest loads room reds row rows start z h in
        let (_, last) = pass-event_hash digest loads room reds row start w₁ x in
        let rises = walk-rises rows w₁ z rest in
        let next = x.next in
        let some_last : start.last_sequence < z.last_sequence = omega arith in
        let (found, at, hash) = walk-predecessor (row ∷ rows) start z h s some_last in
        let at' : at_sequence (z.last_sequence + 1 - 1) (row ∷ rows) ≡ some found =
          let minus : z.last_sequence + 1 - 1 ≡ z.last_sequence = omega arith in
          ap (λ k. at_sequence k (row ∷ rows)) minus ∙ at in
        ground arith

  -- The row that an append adds after a walk.
  abbrev pub added_row : Walk → RoomEvent → EventRow
  added_row z event =
      chained_row digest dumps z.prev_hash (record event { event_sequence = z.last_sequence + 1 })

  -- The walk after it, where `q` is left pending.
  abbrev pub added_walk : Walk → RoomEvent → List (String × Pending) → Walk
  added_walk z event q = record {
    prev_hash = column_text (added_row z event).event_hash;
    last_sequence = z.last_sequence + 1;
    verified = z.verified + 1;
    pending = q;
  }

  added-IsPass :
      (reds : List RedactionRow) (z : Walk) (event : RoomEvent) (q : List (String × Pending))
      → redaction_marker loads (dumps event.body) ≡ none
      → settle_announcements (announced_redactions loads event.kind (dumps event.body)) z.pending
        ≡ ok q
      → IsPass digest loads event.event_room reds (added_row z event) z (added_walk z event q)
  unfolding chained_row check_payload check_hash event_chain_hash chain_material
  added-IsPass reds z event q plain settled = record {
    next = refl;
    linked = refl;
    expected = column_text (added_row z event).event_hash;
    pending = z.pending;
    payload_ok = ground arith;
    left = q;
    settled = settled;
    result = refl;
  }

  -- The log after it.
  abbrev pub added_log : Log → Walk → RoomEvent → Log
  added_log log z event = record log {
    counters = insert str event.event_room (z.last_sequence + 1) log.counters;
    events =
        insert str event.event_room (room_rows log event.event_room ++ added_row z event ∷ [])
          log.events;
  }

  added-ok :
      (log : Log) (event : RoomEvent) (z : Walk)
      → walk digest loads event.event_room log.redactions (room_rows log event.event_room) start
        ≡ (z, none)
      → Hashed (room_rows log event.event_room)
      → Counts digest loads (lookup str event.event_room log.counters) z.last_sequence
      → event_id_taken event.id log.events ≡ false
      → contains str event.event_room log.rooms ≡ true
      → append_with_next_sequence_in_transaction digest dumps true log event
        ≡ ok (added_log log z event)
  unfolding append_with_next_sequence_in_transaction insert_chained chained_row
  added-ok log event z h s c fresh known =
      let n = next_sequence-Counts log event.event_room z.last_sequence c in
      let rows = room_rows log event.event_room in
      let before = walk-predecessor_hash event.event_room log.redactions rows z h s in
      let after =
        walk-insert event.event_room log.redactions rows (added_row z event) start z h
          (omega arith) in
      rw n (ground arith)

  -- What an append to a walked room leaves.
  pub record IsAdded (log : Log) (event : RoomEvent) (z : Walk) (q : List (String × Pending))
      : Type 0 where
    pub appended :
        append_with_next_sequence_in_transaction digest dumps true log event
        ≡ ok (added_log log z event)
    pub rows :
        room_rows (added_log log z event) event.event_room
        ≡ room_rows log event.event_room ++ added_row z event ∷ []
    pub walked_on :
        walk digest loads event.event_room log.redactions
          (room_rows (added_log log z event) event.event_room)
          start
        ≡ (added_walk z event q, none)
    pub counter :
        lookup str event.event_room (added_log log z event).counters ≡ some (z.last_sequence + 1)

  pub append-IsAdded :
      (log : Log) (event : RoomEvent) (z : Walk) (q : List (String × Pending))
      → walk digest loads event.event_room log.redactions (room_rows log event.event_room) start
        ≡ (z, none)
      → Hashed (room_rows log event.event_room)
      → Counts digest loads (lookup str event.event_room log.counters) z.last_sequence
      → event_id_taken event.id log.events ≡ false
      → contains str event.event_room log.rooms ≡ true
      → redaction_marker loads (dumps event.body) ≡ none
      → settle_announcements (announced_redactions loads event.kind (dumps event.body)) z.pending
        ≡ ok q
      → IsAdded log event z q
  append-IsAdded log event z q h s c fresh known plain settled =
      let room = event.event_room in
      let rows' = room_rows log room ++ added_row z event ∷ [] in
      let stored : room_rows (added_log log z event) room ≡ rows' =
        room_rows-stored (added_log log z event) room rows'
          (lookup-insert_self str room rows' log.events) in
      record {
        appended = added-ok log event z h s c fresh known;
        rows = stored;
        walked_on =
            ap (λ rs. walk digest loads room log.redactions rs start) stored
            ∙ walk-snoc room log.redactions (room_rows log room) (added_row z event) start z
                (added_walk z event q) h (added-IsPass log.redactions z event q plain settled);
        counter = lookup-insert_self str room (z.last_sequence + 1) log.counters;
      }
