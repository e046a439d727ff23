-- ===== src/Audit/Pass.antt =====
-- One pass of the verifier's loop, and a whole walk, taken apart.
use xyzzy.Prelude.{
  List, Option, Result, String, [], arith, err, none, ok, refl, some, ◌++◌, ◌+◌, ◌∷◌, ◌≡◌,
}
use xyzzy.Json.{Json}
use xyzzy.Audit.{EventRow, Field, RedactionRow, announced_redactions}
use xyzzy.Audit.Verify.{
  BreakReason, Pending, Walk, check_hash, check_marker, check_payload, check_row, column_text,
  settle_announcements, walk,
}

-- Every row of a room stores a hash.
abbrev pub Hashed : List EventRow → Type 0
Hashed [] = Unit {0}
Hashed (row ∷ rows) = ((h : String) × (row.event_hash ≡ some h)) × Hashed rows

pub Hashed-snoc :
    (rows : List EventRow) (row : EventRow) (h : String)
    → Hashed rows
    → row.event_hash ≡ some h
    → Hashed (rows ++ row ∷ [])
Hashed-snoc [] row h hs e = ((h, e), tt)
Hashed-snoc (r ∷ rows) row h hs e = (hs.0, Hashed-snoc rows row h hs.1 e)

module _ (digest : List Field → String) (loads : String → Option Json) (room_id : String) where
  -- What a pass that succeeds has found.
  pub record IsPass (redactions : List RedactionRow) (row : EventRow) (w w' : Walk) : Type 0 where
    pub next : row.sequence ≡ w.last_sequence + 1
    pub linked : row.prev_hash ≡ some w.prev_hash
    pub expected : String
    pub pending : List (String × Pending)
    pub payload_ok : check_payload digest loads room_id redactions row w ≡ ok (expected, pending)
    pub left : List (String × Pending)
    pub settled :
        settle_announcements (announced_redactions loads row.event_type row.payload) pending
        ≡ ok left
    pub result : w' ≡ record {
      prev_hash = expected;
      last_sequence = row.sequence;
      verified = w.verified + 1;
      pending = left;
    }

  pub check_row-IsPass :
      (redactions : List RedactionRow) (row : EventRow) (w w' : Walk)
      → check_row digest loads room_id redactions row w ≡ ok w'
      → IsPass redactions row w w'
  unfolding check_row
  check_row-IsPass redactions row w w' h =
      by_payload (check_payload digest loads room_id redactions row w) refl
    where
      by_settled :
          (x : String) (p : List (String × Pending))
          (r : Result BreakReason (List (String × Pending)))
          → check_payload digest loads room_id redactions row w ≡ ok (x, p)
          → settle_announcements (announced_redactions loads row.event_type row.payload) p ≡ r
          → IsPass redactions row w w'
      by_settled x p (err _) e e' = ground arith
      by_settled x p (ok left) e e' = record {
        next = ground arith;
        linked = ground arith;
        expected = x;
        pending = p;
        payload_ok = e;
        left = left;
        settled = e';
        result = ground arith;
      }

      by_payload :
          (r : Result BreakReason (String × List (String × Pending)))
          → check_payload digest loads room_id redactions row w ≡ r
          → IsPass redactions row w w'
      by_payload (err _) e = ground arith
      by_payload (ok (x, p)) e =
          by_settled x p
            (settle_announcements (announced_redactions loads row.event_type row.payload) p) e refl

  pub check_row-ok :
      (redactions : List RedactionRow) (row : EventRow) (w w' : Walk)
      → IsPass redactions row w w'
      → check_row digest loads room_id redactions row w ≡ ok w'
  unfolding check_row
  check_row-ok redactions row w w' x =
      let next = x.next in
      let linked = x.linked in
      let payload_ok = x.payload_ok in
      let settled = x.settled in let result = x.result in ground arith

  -- A walk without a break is a pass over the first row and a walk over the others.
  pub walk-step :
      (redactions : List RedactionRow) (row : EventRow) (rows : List EventRow) (w w' : Walk)
      → walk digest loads room_id redactions (row ∷ rows) w ≡ (w', none)
      → (w₁ : Walk) × IsPass redactions row w w₁
        × (walk digest loads room_id redactions rows w₁ ≡ (w', none))
  unfolding walk
  walk-step redactions row rows w w' h =
      by_row (check_row digest loads room_id redactions row w) refl h
    where
      by_row :
          (r : Result BreakReason Walk)
          → check_row digest loads room_id redactions row w ≡ r
          → walk digest loads room_id redactions (row ∷ rows) w ≡ (w', none)
          → (w₁ : Walk) × IsPass redactions row w w₁
            × (walk digest loads room_id redactions rows w₁ ≡ (w', none))
      by_row (err reason) e h' = ground arith
      by_row (ok w₁) e h' = (w₁, check_row-IsPass redactions row w w₁ e, ground arith)

  pub walk-join :
      (redactions : List RedactionRow) (row : EventRow) (rows : List EventRow) (w w₁ w' : Walk)
      → IsPass redactions row w w₁
      → walk digest loads room_id redactions rows w₁ ≡ (w', none)
      → walk digest loads room_id redactions (row ∷ rows) w ≡ (w', none)
  unfolding walk
  walk-join redactions row rows w w₁ w' x h =
      let e = check_row-ok redactions row w w₁ x in ground arith

  -- The hash that a pass goes on with is the one that the row stores.
  pub pass-event_hash :
      (redactions : List RedactionRow) (row : EventRow) (w w' : Walk)
      → IsPass redactions row w w'
      → (w'.prev_hash ≡ column_text row.event_hash) × (w'.last_sequence ≡ row.sequence)
  unfolding check_payload check_hash check_marker
  pass-event_hash redactions row w w' x =
      let payload_ok = x.payload_ok in let result = x.result in (ground arith, ground arith)
