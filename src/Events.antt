-- ===== src/Events.antt =====
-- The append of a room event: its sequence, its hash and its row (`EventRepo`,
-- src/multiplayer/db/repositories.py; `RoomEvent`, src/multiplayer/domain/events.py). `dumps`
-- stands for `json.dumps(…, default=str)`. The rows are those of Audit/Rooms.antt.
pub mod Added
pub mod Append
use xyzzy.Prelude.{
  Bool, List, Option, Result, String, [], contains, err, false, guard, if◌then◌else◌, insert, ite,
  keep, lookup, ltb, max, none, not, ok, some, str, take, true, ℕ, ◌+◌, ◌-◌, ◌==◌, ◌>>=◌, ◌>>◌,
  ◌||◌, ◌∷◌,
}
use xyzzy.Json.{Json}
use xyzzy.Audit.{EventRow, Field, event_chain_hash, genesis_hash}
use xyzzy.Audit.Rooms.{Log, room_rows}

pub record RoomEvent : Type 0 where
  pub event_room : String
  pub event_sequence : ℕ
  pub kind : String
  pub body : Json
  pub actor : String
  pub actor_kind : String
  pub id : String
  pub at : String
  pub schema : ℕ

pub data EventError : Type 0 where
  no_transaction no_predecessor constraint_failed : EventError

-- `SELECT … WHERE room_id = ? AND sequence = ?`
unfoldable pub at_sequence : ℕ → List EventRow → Option EventRow
at_sequence n [] = none
at_sequence n (row ∷ rows) = if row.sequence == n then some row else at_sequence n rows

unfoldable pub has_event : String → List EventRow → Bool
has_event id [] = false
has_event id (row ∷ rows) = ite (str row.event_id id) true (has_event id rows)

-- The primary key of `room_events`, over every room.
unfoldable pub event_id_taken : String → List (String × List EventRow) → Bool
unfolding has_event
event_id_taken id [] = false
event_id_taken id ((_, rows) ∷ rest) = has_event id rows || event_id_taken id rest

-- A row's place in a room's order; `none` where the sequence is taken.
unfoldable pub insert_row : EventRow → List EventRow → Option (List EventRow)
insert_row row [] = some (row ∷ [])
insert_row row (r ∷ rs) =
    let later = insert_row row rs in
    if ltb row.sequence r.sequence
    then some (row ∷ r ∷ rs)
    else if row.sequence == r.sequence
    then none
    else elim later [ none ↦ none | some rows ↦ some (r ∷ rows) ]

-- The predecessor's hash: the genesis hash for a room's first event.
unfoldable pub predecessor_hash : ℕ → List EventRow → Result EventError String
unfolding at_sequence
predecessor_hash n rows =
    if ltb 1 n
    then elim (at_sequence (n - 1) rows) [
      | none ↦ err no_predecessor
      | some row ↦ elim row.event_hash [ none ↦ err no_predecessor | some hash ↦ ok hash ]
    ]
    else ok genesis_hash

module _ (digest : List Field → String) (dumps : Json → String) where
  -- The columns of an event, with the hashes that tie it to its predecessor.
  unfoldable pub chained_row : String → RoomEvent → EventRow
  chained_row prev_hash event =
      let bare : EventRow = record {
        event_id = event.id;
        sequence = event.event_sequence;
        event_type = event.kind;
        payload = dumps event.body;
        actor_id = event.actor;
        actor_type = event.actor_kind;
        timestamp = event.at;
        schema_version = event.schema;
        prev_hash = some prev_hash;
        event_hash = none;
      } in
      record bare { event_hash = some (event_chain_hash digest prev_hash event.event_room bare) }

  unfoldable pub insert_chained : Log → RoomEvent → Result EventError Log
  insert_chained log event = do
    let rows = room_rows log event.event_room
    prev_hash ← predecessor_hash event.event_sequence rows
    let row = chained_row prev_hash event
    guard (not (event_id_taken row.event_id log.events)) constraint_failed
    guard (contains str event.event_room log.rooms) constraint_failed
    elim (insert_row row rows) [
      | none ↦ err constraint_failed
      | some rows' ↦ ok (record log { events = insert str event.event_room rows' log.events })
    ]

  -- `INSERT … ON CONFLICT DO UPDATE SET seq = seq + 1 RETURNING seq`
  abbrev pub next_sequence : Log → String → ℕ
  next_sequence log room_id = elim (lookup str room_id log.counters) [
    | none ↦ 1
    | some seq ↦ seq + 1
  ]

  unfoldable pub bump_sequence : Log → String → Log
  bump_sequence log room_id = record log {
    counters = insert str room_id (next_sequence log room_id) log.counters;
  }

  unfoldable pub append_with_next_sequence_in_transaction :
      Bool → Log → RoomEvent → Result EventError Log
  unfolding bump_sequence
  append_with_next_sequence_in_transaction owns_transaction log event = do
    guard owns_transaction no_transaction
    insert_chained (bump_sequence log event.event_room)
        (record event { event_sequence = next_sequence log event.event_room })

-- `WHERE sequence > ? ORDER BY sequence ASC LIMIT ?`, of one room
unfoldable pub list_since : ℕ → ℕ → List EventRow → List EventRow
list_since after_sequence limit rows = take limit (keep (λ r. ltb after_sequence r.sequence) rows)

-- `COALESCE(MAX(sequence), 0)`, of one room
unfoldable pub get_latest_sequence : List EventRow → ℕ
get_latest_sequence [] = 0
get_latest_sequence (r ∷ rs) = max r.sequence (get_latest_sequence rs)
