-- ===== src/Audit/Tamper.antt =====
-- What the verifier reports of an accepted log that was changed after it was written.
use xyzzy.Prelude.{
  List, Option, String, [], ap, arith, err, inl, inr, length, none, refl, some, subst, ℕ, ◌++◌, ◌+◌,
  ◌∙◌, ◌∷◌, ◌≡◌, ◌≢◌, ◌⊎◌,
}
use xyzzy.Json.{Json}
use xyzzy.Audit.{EventRow, Field, RedactionRow, event_chain_hash, redaction_marker}
use xyzzy.Audit.Verify.{
  BreakReason, ChainBreak, Pending, Walk, check_hash, check_payload, check_row, column_text,
  counter_differs, hash_differs, sequence_missing, start, unannounced, walk,
}
use xyzzy.Audit.Rooms.{check_tail, earliest, last_event_id, verify_rows}
use xyzzy.Audit.Linked.{Counts}
use xyzzy.Audit.Pass.{walk-step}
use xyzzy.Audit.Prefix.{walk-append, walk-split, walk_counts, walk_end}

module _ (digest : List Field → String) (loads : String → Option Json) (room_id : String)
    (redactions : List RedactionRow) where
  -- The break that the verifier reports at a row.
  abbrev pub break_at : EventRow → BreakReason → ChainBreak
  break_at row reason = record {
    room_id = room_id;
    break_sequence = row.sequence;
    break_event_id = row.event_id;
    reason = reason;
  }

  -- The walk of an accepted log goes through to its end, with nothing pending there.
  accepted_walk :
      (rows : List EventRow) (counter : Option ℕ)
      → (verify_rows digest loads room_id redactions rows counter).1 ≡ none
      → (z : Walk) × (walk digest loads room_id redactions rows start ≡ (z, none))
        × Counts digest loads counter z.last_sequence
  unfolding verify_rows check_tail
  accepted_walk rows counter h =
      let r = walk digest loads room_id redactions rows start in
      let unbroken : r.1 ≡ none = ground arith in (r.0, ap (λ b. (r.0, b)) unbroken, ground arith)

  -- A row that is refused after rows that pass: what the verifier returns.
  verify_stops :
      (before : List EventRow) (row : EventRow) (after : List EventRow) (counter : Option ℕ)
      (mid : Walk) (reason : BreakReason)
      → walk digest loads room_id redactions before start ≡ (mid, none)
      → check_row digest loads room_id redactions row mid ≡ err reason
      → verify_rows digest loads room_id redactions (before ++ row ∷ after) counter
        ≡ (length before, some (break_at row reason))
  unfolding verify_rows walk
  verify_stops before row after counter mid reason passed refused =
      let joined =
        walk-append digest loads room_id redactions before (row ∷ after) start mid passed in
      let (_, _, v) = walk_end digest loads room_id redactions before mid passed in
      let stopped : walk digest loads room_id redactions (row ∷ after) mid
          ≡ (mid, some (break_at row reason)) =
        ground (arith, refused) in
      let whole = joined ∙ stopped in ground (arith, whole, v)

  -- A row of an accepted log, with whatever was redacted in it, whose columns were edited while its
  -- stored hashes and its place were kept is reported, at that row and whatever stands after it, if
  -- neither its old payload nor its new one is a redaction marker and the digest tells the edited
  -- columns from the old ones.
  pub edited_row_reported :
      (before : List EventRow) (row row' : EventRow) (after after' : List EventRow)
      (counter counter' : Option ℕ)
      → (verify_rows digest loads room_id redactions (before ++ row ∷ after) counter).1 ≡ none
      → row'.sequence ≡ row.sequence
      → row'.prev_hash ≡ row.prev_hash
      → row'.event_hash ≡ row.event_hash
      → redaction_marker loads row.payload ≡ none
      → redaction_marker loads row'.payload ≡ none
      → (let prev = column_text row.prev_hash in
          event_chain_hash digest prev room_id row' ≢ event_chain_hash digest prev room_id row)
      → verify_rows digest loads room_id redactions (before ++ row' ∷ after') counter'
        ≡ (length before, some (break_at row' hash_differs))
  unfolding check_row check_payload check_hash
  edited_row_reported before row row' after after' counter counter' accepted s p e plain plain'
        differs =
      let (z, walked, _) = accepted_walk (before ++ row ∷ after) counter accepted in
      let (mid, first, rest) =
        walk-split digest loads room_id redactions before (row ∷ after) start z walked in
      let (w₁, x, _) = walk-step digest loads room_id redactions row after mid z rest in
      let next = x.next in
      let linked = x.linked in
      let paid = x.payload_ok in
      let prev_is : column_text row.prev_hash ≡ mid.prev_hash = ap column_text linked in
      let differs' : event_chain_hash digest mid.prev_hash room_id row'
          ≢ event_chain_hash digest mid.prev_hash room_id row =
        subst (λ q. event_chain_hash digest q room_id row' ≢ event_chain_hash digest q room_id row)
          prev_is differs in
      verify_stops before row' after' counter' mid hash_differs first (ground arith)

  -- Where rows were taken out of an accepted log, with whatever was redacted in it, the row that
  -- follows them is reported.
  pub dropped_row_reported :
      (before : List EventRow) (gone : EventRow) (dropped : List EventRow) (row : EventRow)
      (after after' : List EventRow) (counter counter' : Option ℕ)
      → (verify_rows digest loads room_id redactions
          (before ++ gone ∷ (dropped ++ row ∷ after))
          counter).1
        ≡ none
      → verify_rows digest loads room_id redactions (before ++ row ∷ after') counter'
        ≡ (length before, some (break_at row (sequence_missing (length before + 1))))
  unfolding check_row
  dropped_row_reported before gone dropped row after after' counter counter' accepted =
      let (z, walked, _) =
        accepted_walk (before ++ gone ∷ (dropped ++ row ∷ after)) counter accepted in
      let (mid, first, rest) =
        walk-split digest loads room_id redactions before (gone ∷ (dropped ++ row ∷ after)) start z
          walked in
      let (mid', second, rest') =
        walk-split digest loads room_id redactions (gone ∷ dropped) (row ∷ after) mid z rest in
      let (w₁, x, _) = walk-step digest loads room_id redactions row after mid' z rest' in
      let (_, counted, _) = walk_end digest loads room_id redactions before mid first in
      let (_, counted', _) =
        walk_counts digest loads room_id redactions (gone ∷ dropped) mid mid' second in
      let next = x.next in
      let gap : row.sequence ≢ mid.last_sequence + 1 = λ q. omega arith in
      verify_stops before row after' counter' mid (sequence_missing (length before + 1)) first
        (ground arith)

  -- A walk that stops short of the counter is reported after its rows.
  tail_short :
      (rows : List EventRow) (counter : ℕ) (w : Walk)
      → w.last_sequence ≢ counter
      → (b : ChainBreak) × (check_tail room_id rows (some counter) w ≡ some b)
        × ((b.reason ≡ unannounced) ⊎ (b.reason ≡ counter_differs w.last_sequence counter))
  unfolding check_tail
  tail_short rows counter w short = by_pending w.pending refl
    where
      by_pending :
          (p : List (String × Pending))
          → w.pending ≡ p
          → (b : ChainBreak) × (check_tail room_id rows (some counter) w ≡ some b)
            × ((b.reason ≡ unannounced) ⊎ (b.reason ≡ counter_differs w.last_sequence counter))
      by_pending [] e = (
        record {
          room_id = room_id;
          break_sequence = w.last_sequence;
          break_event_id = last_event_id rows;
          reason = counter_differs w.last_sequence counter;
        },
        ground arith,
        inr refl,
      )
      by_pending ((id, p) ∷ rest) e = (
        record {
          room_id = room_id;
          break_sequence = (earliest p rest).at_sequence;
          break_event_id = (earliest p rest).at_event_id;
          reason = unannounced;
        },
        ground arith,
        inl refl,
      )

  -- An accepted log, with whatever was redacted in it, that is cut short at its end is reported while
  -- its counter stays: each row left still passes, and the break says either that the counter differs
  -- from the rows or that a redaction whose announcement was cut off is not announced.
  pub truncation_reported :
      (rows : List EventRow) (gone : EventRow) (dropped : List EventRow) (counter : ℕ)
      → (verify_rows digest loads room_id redactions (rows ++ gone ∷ dropped) (some counter)).1
        ≡ none
      → (b : ChainBreak) × (verify_rows digest loads room_id redactions rows (some counter)
          ≡ (length rows, some b))
        × ((b.reason ≡ unannounced) ⊎ (b.reason ≡ counter_differs (length rows) counter))
  unfolding verify_rows
  truncation_reported rows gone dropped counter accepted =
      let (z, walked, counted) = accepted_walk (rows ++ gone ∷ dropped) (some counter) accepted in
      let (mid, first, rest) =
        walk-split digest loads room_id redactions rows (gone ∷ dropped) start z walked in
      let (_, n, v) = walk_end digest loads room_id redactions rows mid first in
      let (_, n', _) = walk_counts digest loads room_id redactions (gone ∷ dropped) mid z rest in
      let short : mid.last_sequence ≢ counter = λ q. omega arith in
      let (b, told, why) = tail_short rows counter mid short in
      (
        b,
        ground arith,
        subst (λ k. (b.reason ≡ unannounced) ⊎ (b.reason ≡ counter_differs k counter)) n why,
      )
