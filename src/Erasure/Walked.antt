-- ===== src/Erasure/Walked.antt =====
-- The whole walk over a room's rows, once one of them is redacted.
use xyzzy.Prelude.{
  List, Option, String, [], ap, arith, false, insert, ite, lookup, lookup-insert, none, ok, refl,
  some, str, subst, sym, ◌++◌, ◌+◌, ◌∙◌, ◌∷◌, ◌≡◌, ◌≢◌,
}
use xyzzy.Json.{Json}
use xyzzy.Audit.{
  EventRow, Field, RedactionRow, announced_redactions, header_material, header_snapshot_hash,
  redaction_marker,
}
use xyzzy.Audit.Verify.{
  Pending, Walk, check_hash, check_marker, check_payload, column_text, find_redaction,
  settle_announcements, walk,
}
use xyzzy.Events.{has_event}
use xyzzy.Erasure.{redact_rows, text_or_empty}
use xyzzy.Audit.Pass.{IsPass, walk-join, walk-step}
use xyzzy.Erasure.Redacted.{find-new, has_redaction, names}
use xyzzy.Erasure.Owing.{IsMore, after-IsPass, before-IsPass, entry_of}

-- `SELECT … WHERE event_id = ?`, in one room
unfoldable pub find_event : String → List EventRow → Option EventRow
find_event id [] = none
find_event id (row ∷ rows) = ite (str row.event_id id) (some row) (find_event id rows)

-- The ids of a room's events stand once each.
abbrev pub Separated : List EventRow → Type 0
Separated [] = Unit {0}
Separated (row ∷ rows) = (has_event row.event_id rows ≡ false) × Separated rows

-- The announcements of the rows do not name a redaction.
abbrev pub Unnamed : (String → Option Json) → String → List EventRow → Type 0
Unnamed loads id [] = Unit {0}
Unnamed loads id (row ∷ rows) =
    (names id (announced_redactions loads row.event_type row.payload) ≡ false)
    × Unnamed loads id rows

redact_rows-absent :
    (id payload : String) (rows : List EventRow)
    → has_event id rows ≡ false
    → redact_rows id payload rows ≡ rows
unfolding has_event redact_rows
redact_rows-absent id payload [] h = refl
redact_rows-absent id payload (row ∷ rows) h = ground (arith, redact_rows-absent id payload rows)

module _ (digest : List Field → String) (loads : String → Option Json) (room_id : String)
    (reds : List RedactionRow) (new : RedactionRow)
    (free : has_redaction new.redaction_id reds ≡ false) (row₀ : EventRow) (marker : String)
    (is_new : redaction_marker loads marker ≡ some new.redaction_id)
    (same_event : new.redacted_event_id ≡ row₀.event_id)
    (same_original : new.original_event_hash ≡ column_text row₀.event_hash)
    (same_header : new.header_hash
      ≡ header_snapshot_hash digest row₀ (text_or_empty row₀.prev_hash))
    (plain : redaction_marker loads row₀.payload ≡ none)
    (quiet : row₀.event_type ≢ "event.redacted") where
  abbrev erased : EventRow
  erased = record row₀ { payload = marker }

  quiet-announced : (payload : String) → announced_redactions loads row₀.event_type payload ≡ []
  unfolding announced_redactions
  quiet-announced payload = ground arith

  quiet-settle :
      (payload : String) (p : List (String × Pending))
      → settle_announcements (announced_redactions loads row₀.event_type payload) p ≡ ok p
  unfolding settle_announcements
  quiet-settle payload p = ap (λ rs. settle_announcements rs p) (quiet-announced payload)

  header_of :
      (w : Walk)
      → row₀.prev_hash ≡ some w.prev_hash
      → header_snapshot_hash digest erased w.prev_hash ≡ new.header_hash
  unfolding header_snapshot_hash header_material
  header_of w h = sym (same_header ∙ ap (λ o. header_snapshot_hash digest row₀ (text_or_empty o)) h)

  -- The pass over the row itself: it now goes by the redaction on record.
  erased-IsPass :
      (w w₁ : Walk)
      → IsPass digest loads room_id reds row₀ w w₁
      → (w₁' : Walk) × IsPass digest loads room_id (reds ++ new ∷ []) erased w w₁'
        × IsMore new.redaction_id (entry_of row₀ new) w₁ w₁'
  unfolding check_payload check_hash check_marker
  erased-IsPass w w₁ x =
      let found : find_redaction (reds ++ new ∷ []) new.redaction_id row₀.event_id ≡ some new =
        subst (λ e. find_redaction (reds ++ new ∷ []) new.redaction_id e ≡ some new) same_event
          (find-new reds new free) in
      let header = header_of w x.linked in
      let paid = x.payload_ok in
      let silent = quiet-announced row₀.payload in
      let settled = x.settled in
      let p_is : x.pending ≡ w.pending = ground arith in
      let left_is : x.left ≡ x.pending = ground (arith, quiet-settle row₀.payload x.pending) in
      let hash : x.expected ≡ new.original_event_hash = ground arith in
      let pending' = insert str new.redaction_id (entry_of row₀ new) w.pending in
      (
        record {
          prev_hash = new.original_event_hash;
          last_sequence = row₀.sequence;
          verified = w.verified + 1;
          pending = pending';
        },
        record {
          next = x.next;
          linked = x.linked;
          expected = new.original_event_hash;
          pending = pending';
          payload_ok = ground arith;
          left = pending';
          settled = quiet-settle marker pending';
          result = refl;
        },
        record {
          same_hash = sym hash ∙ ap (λ (k : Walk). k.prev_hash) (sym x.result);
          same_sequence = ap (λ (k : Walk). k.last_sequence) (sym x.result);
          adds = λ j.
              let here : w₁.pending ≡ w.pending =
                ap (λ (k : Walk). k.pending) x.result ∙ (left_is ∙ p_is) in
              lookup-insert str new.redaction_id j (entry_of row₀ new) w.pending
              ∙ ap (λ d. ite (str j new.redaction_id) (some (entry_of row₀ new)) (lookup str j d))
                  (sym here);
        },
      )

  walk_after :
      (entry : Pending) (rows : List EventRow) (w w' z : Walk)
      → Unnamed loads new.redaction_id rows
      → IsMore new.redaction_id entry w w'
      → walk digest loads room_id reds rows w ≡ (z, none)
      → (z' : Walk) × (walk digest loads room_id (reds ++ new ∷ []) rows w' ≡ (z', none))
        × IsMore new.redaction_id entry z z'
  unfolding walk
  walk_after entry [] w w' z u m h =
      let same : w ≡ z = ground arith in
      (w', refl, subst (λ k. IsMore new.redaction_id entry k w') same m)
  walk_after entry (row ∷ rows) w w' z u m h =
      let (w₁, x, rest) = walk-step digest loads room_id reds row rows w z h in
      let (w₁', x', m') =
        after-IsPass digest loads room_id reds new free entry row w w' w₁ m u.0 x in
      let (z', rest', m'') = walk_after entry rows w₁ w₁' z u.1 m' rest in
      (z', walk-join digest loads room_id (reds ++ new ∷ []) row rows w' w₁' z' x' rest', m'')

  -- The walk over the redacted rows passes, with the one more redaction pending.
  pub walk-redacted :
      (rows : List EventRow) (w z : Walk)
      → Separated rows
      → Unnamed loads new.redaction_id rows
      → find_event row₀.event_id rows ≡ some row₀
      → walk digest loads room_id reds rows w ≡ (z, none)
      → (z' : Walk) × (walk digest loads room_id
            (reds ++ new ∷ [])
            (redact_rows row₀.event_id marker rows)
            w
          ≡ (z', none))
        × IsMore new.redaction_id (entry_of row₀ new) z z'
  unfolding find_event redact_rows
  walk-redacted [] w z s u f h = cc
  walk-redacted (row ∷ rows) w z s u f h =
      by_event (str row.event_id row₀.event_id) refl
        (λ w₁ f' h'. walk-redacted rows w₁ z s.1 u.1 f' h')
    where
      by_event :
          (d : Dec (row.event_id ≡ row₀.event_id))
          → str row.event_id row₀.event_id ≡ d
          → ((w₁ : Walk)
              → find_event row₀.event_id rows ≡ some row₀
              → walk digest loads room_id reds rows w₁ ≡ (z, none)
              → (z' : Walk) × (walk digest loads room_id
                    (reds ++ new ∷ [])
                    (redact_rows row₀.event_id marker rows)
                    w₁
                  ≡ (z', none))
                × IsMore new.redaction_id (entry_of row₀ new) z z')
          → (z' : Walk) × (walk digest loads room_id
                (reds ++ new ∷ [])
                (redact_rows row₀.event_id marker (row ∷ rows))
                w
              ≡ (z', none))
            × IsMore new.redaction_id (entry_of row₀ new) z z'
      by_event (yes e) eq later =
          let here : row ≡ row₀ = ground arith in
          let (w₁, x, rest) = walk-step digest loads room_id reds row rows w z h in
          let (w₁', x', m) =
            erased-IsPass w w₁ (subst (λ r. IsPass digest loads room_id reds r w w₁) here x) in
          let absent : redact_rows row₀.event_id marker rows ≡ rows =
            redact_rows-absent row₀.event_id marker rows
              (ap (λ i. has_event i rows) (sym e) ∙ s.0) in
          let rows_are : redact_rows row₀.event_id marker (row ∷ rows) ≡ erased ∷ rows =
            ground arith in
          let (z', rest', m') = walk_after (entry_of row₀ new) rows w₁ w₁' z u.1 m rest in
          (
            z',
            ap (λ rs. walk digest loads room_id (reds ++ new ∷ []) rs w) rows_are
                ∙ walk-join digest loads room_id (reds ++ new ∷ []) erased rows w w₁' z' x' rest',
            m',
          )
      by_event (no ne) eq later =
          let (w₁, x, rest) = walk-step digest loads room_id reds row rows w z h in
          let (z', rest', m) = later w₁ (ground arith) rest in
          let rows_are : redact_rows row₀.event_id marker (row ∷ rows)
              ≡ row ∷ redact_rows row₀.event_id marker rows =
            ground arith in
          (
            z',
            ap (λ rs. walk digest loads room_id (reds ++ new ∷ []) rs w) rows_are
                ∙ walk-join digest loads room_id (reds ++ new ∷ []) row
                    (redact_rows row₀.event_id marker rows) w w₁ z'
                    (before-IsPass digest loads room_id reds new free row w w₁ x) rest',
            m,
          )
