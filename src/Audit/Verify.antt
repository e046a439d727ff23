-- ===== src/Audit/Verify.antt =====
-- The loop of `verify_event_chain` over one room (src/multiplayer/security/audit.py).
use xyzzy.Prelude.{
  List, Option, Result, String, [], err, if◌then◌else◌, insert, ite, lookup, none, not, ok, remove,
  some, str, ℕ, ◌+◌, ◌==◌, ◌>>=◌, ◌>>◌, ◌∷◌,
}
use xyzzy.Json.{Json}
use xyzzy.Audit.{
  EventRow, Field, RedactionAnnouncement, RedactionRow, announced_redactions, event_chain_hash,
  genesis_hash, header_snapshot_hash, redaction_marker,
}

pub data BreakReason : Type 0 where
  sequence_missing : ℕ → BreakReason
  prev_hash_breaks no_redaction_row original_hash_differs header_differs : BreakReason
  hash_differs announcement_differs unannounced counter_missing : BreakReason
  counter_differs : ℕ → ℕ → BreakReason

pub record ChainBreak : Type 0 where
  pub room_id : String
  pub break_sequence : ℕ
  pub break_event_id : String
  pub reason : BreakReason

-- A redaction that no `event.redacted` event has named so far.
pub record Pending : Type 0 where
  pub at_sequence : ℕ
  pub at_event_id : String
  pub expected_header_hash : String
  pub expected_original_hash : String

-- The loop's variables.
pub record Walk : Type 0 where
  pub prev_hash : String
  pub last_sequence : ℕ
  pub verified : ℕ
  pub pending : List (String × Pending)

unfoldable pub start : Walk
start = record { prev_hash = genesis_hash; last_sequence = 0; verified = 0; pending = [] }

-- `str(column)`
abbrev pub column_text : Option String → String
column_text none = "None"
column_text (some t) = t

-- `SELECT … FROM event_redactions WHERE redaction_id = ? AND event_id = ?`
unfoldable pub find_redaction : List RedactionRow → String → String → Option RedactionRow
find_redaction [] redaction_id event_id = none
find_redaction (r ∷ rs) redaction_id event_id =
    ite (str r.redaction_id redaction_id)
      (ite (str r.redacted_event_id event_id) (some r) (find_redaction rs redaction_id event_id))
      (find_redaction rs redaction_id event_id)

-- The loop over a row's announcements: a break, or the redactions that stay pending.
unfoldable pub settle_announcements :
    List RedactionAnnouncement
    → List (String × Pending)
    → Result BreakReason (List (String × Pending))
unfolding lookup remove
settle_announcements [] pending = ok pending
settle_announcements (a ∷ as') pending =
    let skipped = settle_announcements as' pending in
    let resolved = settle_announcements as' (remove str a.announced_id pending) in
    elim (lookup str a.announced_id pending) [
      | none ↦ skipped
      | some p ↦
          ite (str a.announced_header_hash p.expected_header_hash)
            (ite (str a.announced_original_hash p.expected_original_hash) resolved
              (err announcement_differs))
            (err announcement_differs)
    ]

-- A test that must pass, with the reason reported where it fails.
abbrev pub require_equal : String → String → BreakReason → Result BreakReason (Unit {0})
require_equal a b reason = ite (str a b) (ok tt) (err reason)

module _ (digest : List Field → String) (loads : String → Option Json) where
  -- The branch for a redaction marker: the expected hash, and the pending redactions. The stored
  -- `prev_hash` has been found equal to the walk's before this branch is reached.
  unfoldable pub check_marker :
      List RedactionRow
      → String
      → EventRow
      → Walk
      → Result BreakReason (String × List (String × Pending))
  unfolding header_snapshot_hash
  check_marker redactions redaction_id row w =
      elim (find_redaction redactions redaction_id row.event_id) [
        | none ↦ err no_redaction_row
        | some r ↦ do
          require_equal r.original_event_hash (column_text row.event_hash) original_hash_differs
          require_equal (header_snapshot_hash digest row w.prev_hash) r.header_hash header_differs
          let entry : Pending = record {
            at_sequence = row.sequence;
            at_event_id = row.event_id;
            expected_header_hash = r.header_hash;
            expected_original_hash = r.original_event_hash;
          }
          ok (r.original_event_hash, insert str redaction_id entry w.pending)
      ]

  -- The branch for an ordinary payload.
  unfoldable pub check_hash :
      String → EventRow → Walk → Result BreakReason (String × List (String × Pending))
  check_hash room_id row w =
      let expected = event_chain_hash digest w.prev_hash room_id row in
      elim row.event_hash [
        | none ↦ err hash_differs
        | some stored ↦ do require_equal stored expected hash_differs; ok (expected, w.pending)
      ]

  unfoldable pub check_payload :
      String
      → List RedactionRow
      → EventRow
      → Walk
      → Result BreakReason (String × List (String × Pending))
  check_payload room_id redactions row w = elim (redaction_marker loads row.payload) [
    | some redaction_id ↦ check_marker redactions redaction_id row w
    | none ↦ check_hash room_id row w
  ]

  -- One pass of the loop.
  unfoldable pub check_row : String → List RedactionRow → EventRow → Walk → Result BreakReason Walk
  check_row room_id redactions row w =
      if not (row.sequence == w.last_sequence + 1)
      then err (sequence_missing (w.last_sequence + 1))
      else elim row.prev_hash [
        | none ↦ err prev_hash_breaks
        | some stored_prev ↦ do
          require_equal stored_prev w.prev_hash prev_hash_breaks
          (expected, pending) ← check_payload room_id redactions row w
          left ←
              settle_announcements (announced_redactions loads row.event_type row.payload) pending
          ok (record {
            prev_hash = expected;
            last_sequence = row.sequence;
            verified = w.verified + 1;
            pending = left;
          })
      ]

  -- The rows up to the first break, and that break.
  unfoldable pub walk : String → List RedactionRow → List EventRow → Walk → Walk × Option ChainBreak
  walk room_id redactions [] w = (w, none)
  walk room_id redactions (row ∷ rows) w = elim (check_row room_id redactions row w) [
    | ok w' ↦ walk room_id redactions rows w'
    | err reason ↦ (
      w,
      some (record {
        room_id = room_id;
        break_sequence = row.sequence;
        break_event_id = row.event_id;
        reason = reason;
      }),
    )
  ]
