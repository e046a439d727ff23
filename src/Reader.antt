-- ===== src/Reader.antt =====
-- The reads of a room's events page by page: `get_room_events` and the count of
-- `export_room_audit` of src/multiplayer/services/audit.py, and the backfill of a socket in
-- src/multiplayer/realtime/websocket.py. A page is `list_since`; a row stands for the event read from
-- it. Limits and sequences are not negative.
pub mod Sorted
pub mod Pages
pub mod Backfill
use xyzzy.Prelude.{
  Bool, List, Option, [], if◌then◌else◌, length, ltb, map_found, max, min, none, not, some, suc,
  take, zero, ℕ, ◌++◌, ◌-◌, ◌∷◌,
}
use xyzzy.Audit.{EventRow}
use xyzzy.Events.{list_since}

abbrev pub room_events_max_limit : ℕ
room_events_max_limit = 5000

abbrev pub page_limit : ℕ
page_limit = 500

-- `page[-1].sequence`
unfoldable pub last_sequence_of : EventRow → List EventRow → ℕ
last_sequence_of row [] = row.sequence
last_sequence_of row (row' ∷ rows) = last_sequence_of row' rows

-- The loop, with the cap, the cursor and the events so far; `none` where the fuel runs out.
unfoldable pub read_pages : ℕ → List EventRow → ℕ → ℕ → List EventRow → Option (List EventRow)
unfolding list_since last_sequence_of
read_pages zero rows capped after events = none
read_pages (suc fuel) rows capped after events =
    let page_size = min page_limit (capped - length events) in
    if not (ltb (length events) capped)
    then some events
    else elim (list_since after page_size rows) [
      | [] ↦ some events
      | row ∷ page ↦
          let events' = events ++ row ∷ page in
          if ltb (length (row ∷ page)) page_size
          then some events'
          else read_pages fuel rows capped (last_sequence_of row page) events'
    ]

-- Each page but the last adds an event, so the cap bounds the pages.
unfoldable pub get_room_events : List EventRow → ℕ → ℕ → Option (List EventRow)
unfolding read_pages
get_room_events rows after limit =
    let capped = max 1 (min limit room_events_max_limit) in
    map_found (take capped) (read_pages (suc capped) rows capped after [])

abbrev pub backfill_page_size : ℕ
backfill_page_size = 500

-- The events sent, and the cursor at the end where the backfill was not broken off.
abbrev pub sent_before :
    EventRow → Option (List EventRow × Option ℕ) → Option (List EventRow × Option ℕ)
sent_before row none = none
sent_before row (some (rows, mark)) = some (row ∷ rows, mark)

-- `for room_event in page: …`, then what follows; `allowed` is what `still_authorized` answers as
-- the event's turn comes.
unfoldable pub send_page :
    (EventRow → Bool)
    → List EventRow
    → Option (List EventRow × Option ℕ)
    → Option (List EventRow × Option ℕ)
send_page allowed [] rest = rest
send_page allowed (row ∷ rows) rest =
    let later = send_page allowed rows rest in
    if allowed row then sent_before row later else some ([], none)

-- The loop of the backfill; `none` where the fuel runs out.
unfoldable pub backfill :
    (EventRow → Bool) → ℕ → List EventRow → ℕ → Option (List EventRow × Option ℕ)
unfolding send_page last_sequence_of get_room_events
backfill allowed zero rows cursor = none
backfill allowed (suc fuel) rows cursor = elim (get_room_events rows cursor backfill_page_size) [
  | none ↦ none
  | some [] ↦ some ([], some cursor)
  | some (row ∷ page) ↦
      let cursor' = last_sequence_of row page in
      let later = backfill allowed fuel rows cursor' in
      send_page allowed (row ∷ page)
        (if ltb (length (row ∷ page)) backfill_page_size then some ([], some cursor') else later)
]
