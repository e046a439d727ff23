-- ===== src/Audit/Rooms.antt =====
-- What `verify_event_chain` does after a room's loop, and its loop over the rooms
-- (src/multiplayer/security/audit.py).
use Prim.Native.String.{compare as compare_text}
use Prim.Native.Nat.{Ordering}
use xyzzy.Prelude.{
  List, Option, String, [], false, if◌then◌else◌, ite, keep, lookup, ltb, map, none, some, str,
  true, ℕ, ◌++◌, ◌+◌, ◌==◌, ◌∷◌,
}
use xyzzy.Json.{Json}
use xyzzy.Audit.{EventRow, Field, RedactionRow}
use xyzzy.Audit.Verify.{
  ChainBreak, Pending, Walk, counter_differs, counter_missing, start, unannounced, walk,
}

-- The rows that the verifier reads. A room's rows come in the order of their sequence.
pub record Log : Type 0 where
  pub rooms : List String  -- the ids of `rooms`, which `room_events` refers to
  pub counters : List (String × ℕ)  -- room_sequences
  pub events : List (String × List EventRow)  -- room_events
  pub redactions : List RedactionRow  -- event_redactions

abbrev pub room_rows : Log → String → List EventRow
room_rows log room_id = elim (lookup str room_id log.events) [ none ↦ [] | some rows ↦ rows ]

-- `rows[-1]["event_id"] if rows else ""`
unfoldable pub last_event_id : List EventRow → String
last_event_id [] = ""
last_event_id (row ∷ []) = row.event_id
last_event_id (row ∷ row' ∷ rows) = last_event_id (row' ∷ rows)

-- `min(pending_redactions.values())`: the sequences of pending redactions differ, so the first
-- member decides.
unfoldable pub earliest : Pending → List (String × Pending) → Pending
earliest p [] = p
earliest p ((_, q) ∷ rest) = earliest (if ltb q.at_sequence p.at_sequence then q else p) rest

-- After the loop: redactions left pending, then the room's counter.
unfoldable pub check_tail : String → List EventRow → Option ℕ → Walk → Option ChainBreak
unfolding last_event_id earliest
check_tail room_id rows counter w = elim w.pending [
  | (_, p) ∷ rest ↦
      let first = earliest p rest in
      some (record {
        room_id = room_id;
        break_sequence = first.at_sequence;
        break_event_id = first.at_event_id;
        reason = unannounced;
      })
  | [] ↦ elim counter [
    | none ↦
        if ltb 0 w.last_sequence
        then some (record {
          room_id = room_id;
          break_sequence = w.last_sequence;
          break_event_id = last_event_id rows;
          reason = counter_missing;
        })
        else none
    | some seq ↦
        if seq == w.last_sequence
        then none
        else some (record {
          room_id = room_id;
          break_sequence = w.last_sequence;
          break_event_id = last_event_id rows;
          reason = counter_differs w.last_sequence seq;
        })
  ]
]

-- `sorted(set(…) | …)`
unfoldable pub insert_sorted : String → List String → List String
insert_sorted r [] = r ∷ []
insert_sorted r (s ∷ ss) = elim (compare_text r s) [
  | Ordering.lt ↦ r ∷ s ∷ ss
  | Ordering.eq ↦ s ∷ ss
  | Ordering.gt ↦ s ∷ insert_sorted r ss
]

unfoldable pub sorted_set : List String → List String
sorted_set [] = []
sorted_set (r ∷ rs) = insert_sorted r (sorted_set rs)

unfoldable pub room_ids : Log → List String
unfolding insert_sorted sorted_set
room_ids log = sorted_set (map (λ c. c.0) log.counters ++ map (λ e. e.0) log.events)

module _ (digest : List Field → String) (loads : String → Option Json) where
  -- One room's rows against its counter: how many were verified, and the break.
  unfoldable pub verify_rows :
      String → List RedactionRow → List EventRow → Option ℕ → ℕ × Option ChainBreak
  verify_rows room_id redactions rows counter =
      let (w, broken) = walk digest loads room_id redactions rows start in
      elim broken [
        | some b ↦ (w.verified, some b)
        | none ↦ (w.verified, check_tail room_id rows counter w)
      ]

  unfoldable pub verify_room : Log → String → ℕ × Option ChainBreak
  verify_room log room_id =
      verify_rows room_id log.redactions (room_rows log room_id) (lookup str room_id log.counters)

  abbrev pub add_room : ℕ × Option ChainBreak → ℕ × List ChainBreak → ℕ × List ChainBreak
  add_room (n, none) (m, breaks) = (n + m, breaks)
  add_room (n, some b) (m, breaks) = (n + m, b ∷ breaks)

  unfoldable pub verify_rooms : Log → List String → ℕ × List ChainBreak
  verify_rooms log [] = (0, [])
  verify_rooms log (r ∷ rs) = add_room (verify_room log r) (verify_rooms log rs)

  -- With a room given, its chain alone is read, and only if the log names the room.
  unfoldable pub verify_event_chain : Log → Option String → ℕ × List ChainBreak
  unfolding room_ids
  verify_event_chain log none = verify_rooms log (room_ids log)
  verify_event_chain log (some room_id) =
      verify_rooms log (keep (λ r. ite (str r room_id) true false) (room_ids log))
