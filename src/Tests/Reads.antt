-- ===== src/Tests/Reads.antt =====
-- The paged reads' theorems on a room with three rows.
use xyzzy.Prelude.{Bool, List, [], arith, ltb, max, min, none, some, ℕ, ◌∷◌, ◌≡◌}
use xyzzy.Audit.{EventRow}
use xyzzy.Events.{list_since}
use xyzzy.Reader.{backfill, get_room_events, room_events_max_limit}
use xyzzy.Reader.Sorted.{Ascending, past}
use xyzzy.Reader.Pages.{get_room_events-list_since}
use xyzzy.Reader.Backfill.{backfill-replayed, replayed}

abbrev numbered_row : ℕ → EventRow
numbered_row n = record {
  event_id = "e";
  sequence = n;
  event_type = "t";
  payload = "";
  actor_id = "u1";
  actor_type = "user";
  timestamp = "";
  schema_version = 1;
  prev_hash = none;
  event_hash = none;
}

abbrev three_rows : List EventRow
three_rows = numbered_row 1 ∷ numbered_row 2 ∷ numbered_row 3 ∷ []

three-Ascending : Ascending three_rows
three-Ascending = ((omega arith, (omega arith, tt)), ((omega arith, tt), (tt, tt)))

get_room_events-list_since_example :
    get_room_events three_rows 1 1
    ≡ some (list_since 1 (max 1 (min 1 room_events_max_limit)) three_rows)
get_room_events-list_since_example = get_room_events-list_since three_rows 1 1 three-Ascending

-- A reader who may not read the third row.
abbrev but_third : EventRow → Bool
but_third row = ltb row.sequence 3

backfill-replayed_example :
    backfill but_third 3 three_rows 1 ≡ some (replayed but_third (past 1 three_rows) 1)
backfill-replayed_example = backfill-replayed but_third 3 three_rows 1 three-Ascending (omega arith)
