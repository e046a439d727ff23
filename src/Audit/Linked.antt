-- ===== src/Audit/Linked.antt =====
-- The logs that the verifier accepts, told without its loop: chains from the genesis hash.
use xyzzy.Audit.Rooms.{Log, check_tail, room_rows, verify_room, verify_rows}
use xyzzy.Prelude.{
  List, Option, Result, String, [], ap, arith, err, length, lookup, none, ok, refl, some, str,
  subst, suc, ℕ, ◌+◌, ◌↔◌, ◌∙◌, ◌∷◌, ◌≡◌,
}
use native.Mathlib.Nat.{add-zero}
use mathlib.Core.Path.{ap₂}
use xyzzy.Json.{Json}
use xyzzy.Audit.{
  EventRow, Field, RedactionAnnouncement, RedactionRow, announced_redactions, event_chain_hash,
  genesis_hash, redaction_marker,
}
use xyzzy.Audit.Verify.{
  BreakReason, Walk, check_hash, check_payload, check_row, settle_announcements, start, walk,
}

module _ (digest : List Field → String) (loads : String → Option Json) where
  -- No payload of the rows has the shape of a redaction marker.
  abbrev pub Unredacted : List EventRow → Type 0
  Unredacted [] = Unit {0}
  Unredacted (row ∷ rows) = (redaction_marker loads row.payload ≡ none) × Unredacted rows

  module _ (room_id : String) where
    -- The rows follow one another from sequence `n` and hash `prev`, and each stores its hashes.
    abbrev pub Linked : String → ℕ → List EventRow → Type 0
    Linked prev n [] = Unit {0}
    Linked prev n (row ∷ rows) =
        (row.sequence ≡ suc n)
        × (row.prev_hash ≡ some prev)
        × (row.event_hash ≡ some (event_chain_hash digest prev room_id row))
        × Linked (event_chain_hash digest prev room_id row) (suc n) rows

    -- The hash at the end of a chain.
    abbrev pub head_hash : String → List EventRow → String
    head_hash prev [] = prev
    head_hash prev (row ∷ rows) = head_hash (event_chain_hash digest prev room_id row) rows

    -- A walk with nothing pending.
    abbrev pub plain_walk : String → ℕ → ℕ → Walk
    plain_walk prev n v = record { prev_hash = prev; last_sequence = n; verified = v; pending = [] }

    pub settle-nil : (rs : List RedactionAnnouncement) → settle_announcements rs [] ≡ ok []
    unfolding settle_announcements
    settle-nil [] = refl
    settle-nil (a ∷ rs) = settle-nil rs

    -- One pass over an ordinary row succeeds exactly when the row is the chain's next link.
    pub check_row_iff :
        (redactions : List RedactionRow) (row : EventRow) (prev : String) (n v : ℕ) (w : Walk)
        → redaction_marker loads row.payload ≡ none
        → (check_row digest loads room_id redactions row (plain_walk prev n v) ≡ ok w) ↔ (
            (row.sequence ≡ suc n)
            × (row.prev_hash ≡ some prev)
            × (row.event_hash ≡ some (event_chain_hash digest prev room_id row))
            × (w ≡ plain_walk (event_chain_hash digest prev room_id row) (suc n) (v + 1)))
    unfolding check_row check_payload check_hash
    check_row_iff redactions row prev n v w plain = (
      λ h. ground (arith, settle-nil (announced_redactions loads row.event_type row.payload)),
      λ h. ground (arith, settle-nil (announced_redactions loads row.event_type row.payload)),
    )

    pub walk_of_Linked :
        (redactions : List RedactionRow) (rows : List EventRow) (prev : String) (n v : ℕ)
        → Unredacted rows
        → Linked prev n rows
        → walk digest loads room_id redactions rows (plain_walk prev n v)
          ≡ (plain_walk (head_hash prev rows) (n + length rows) (v + length rows), none)
    unfolding walk
    walk_of_Linked redactions [] prev n v u l = rw (add-zero, add-zero)
    walk_of_Linked redactions (row ∷ rows) prev n v u l =
        let next = event_chain_hash digest prev room_id row in
        let passed =
          (check_row_iff redactions row prev n v (plain_walk next (suc n) (v + 1)) u.0).1
            (l.0, l.1, l.2, refl) in
        rw (passed, walk)
          (walk_of_Linked redactions rows next (suc n) (v + 1) u.1 l.3
            ∙ ap (λ w. (w, none))
                (ap₂ (λ a b. plain_walk (head_hash next rows) a b) (omega arith) (omega arith)))

    Linked-of_walk :
        (redactions : List RedactionRow) (rows : List EventRow) (prev : String) (n v : ℕ)
        → Unredacted rows
        → (walk digest loads room_id redactions rows (plain_walk prev n v)).1 ≡ none
        → Linked prev n rows
    unfolding walk
    Linked-of_walk redactions [] prev n v u h = tt
    Linked-of_walk redactions (row ∷ rows) prev n v u h =
        by_check (check_row digest loads room_id redactions row (plain_walk prev n v)) refl
          (λ m k. Linked-of_walk redactions rows (event_chain_hash digest prev room_id row) m k u.1)
      where
        by_check :
            (r : Result BreakReason Walk)
            → check_row digest loads room_id redactions row (plain_walk prev n v) ≡ r
            → ((m k : ℕ)
                → (walk digest loads room_id redactions rows
                    (plain_walk (event_chain_hash digest prev room_id row) m k)).1
                  ≡ none
                → Linked (event_chain_hash digest prev room_id row) m rows)
            → Linked prev n (row ∷ rows)
        by_check (err e) q rec = absurd (ground arith)
        by_check (ok w) q rec =
            let (s, p, e, same) = (check_row_iff redactions row prev n v w u.0).0 q in
            let h' : (walk digest loads room_id redactions rows w).1 ≡ none = rw (q, walk) at h in
            (
              s,
              p,
              e,
              rec (suc n) (v + 1)
                  (subst (λ x. (walk digest loads room_id redactions rows x).1 ≡ none) same h'),
            )

  -- The counter that a log of `n` events must have; a room with no event may have none.
  abbrev pub Counts : Option ℕ → ℕ → Type 0
  Counts none n = n ≡ 0
  Counts (some seq) n = seq ≡ n

  pub verify_rows_iff :
      (room_id : String) (redactions : List RedactionRow) (rows : List EventRow)
      (counter : Option ℕ)
      → Unredacted rows
      → (verify_rows digest loads room_id redactions rows counter ≡ (length rows, none))
        ↔ (Linked room_id genesis_hash 0 rows × Counts counter (length rows))
  unfolding verify_rows start check_tail
  verify_rows_iff room_id redactions rows counter u = (
    λ h.
        let l = Linked-of_walk room_id redactions rows genesis_hash 0 0 u (ground arith) in
        (l, ground (arith, walk_of_Linked room_id redactions rows genesis_hash 0 0 u l)),
    λ h. ground (arith, walk_of_Linked room_id redactions rows genesis_hash 0 0 u h.0),
  )

  -- For a room whose events hold no redaction marker, the verifier counts every row and reports no
  -- break exactly when the rows are numbered from 1 without a gap, each stores the hash of the one
  -- before it and its own recomputed hash, and the room's counter is the number of rows.
  pub verify_room_iff :
      (log : Log) (room_id : String)
      → Unredacted (room_rows log room_id)
      → (verify_room digest loads log room_id ≡ (length (room_rows log room_id), none)) ↔ (
          Linked room_id genesis_hash 0 (room_rows log room_id)
          × Counts (lookup str room_id log.counters) (length (room_rows log room_id)))
  unfolding verify_room
  verify_room_iff log room_id u =
      verify_rows_iff room_id log.redactions (room_rows log room_id)
        (lookup str room_id log.counters) u
