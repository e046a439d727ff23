-- ===== src/Audit/Prefix.antt =====
-- The verifier's walk over the rows before a place, and what it has counted there.
use xyzzy.Prelude.{
  List, Option, String, [], ap, arith, length, lookup, none, refl, str, subst, ℕ, ◌++◌, ◌+◌, ◌∙◌,
  ◌∷◌, ◌≡◌,
}
use xyzzy.Json.{Json}
use xyzzy.Audit.{EventRow, Field, RedactionRow, genesis_hash}
use xyzzy.Audit.Verify.{ChainBreak, Walk, column_text, start, walk}
use xyzzy.Audit.Rooms.{Log, check_tail, room_rows, verify_room, verify_rows}
use xyzzy.Audit.Linked.{Counts}
use xyzzy.Audit.Pass.{check_row-ok, pass-event_hash, walk-join, walk-step}

-- The hash that the last row stores; the genesis hash where there is none.
unfoldable pub hash_after : String → List EventRow → String
hash_after hash [] = hash
hash_after hash (row ∷ rows) = hash_after (column_text row.event_hash) rows

abbrev pub last_hash : List EventRow → String
last_hash rows = hash_after genesis_hash rows

module _ (digest : List Field → String) (loads : String → Option Json) where
  -- The verifier walks the room to its end, and then finds nothing pending and the counter right.
  pub walked-of_verify :
      (log : Log) (room : String)
      → (verify_room digest loads log room).1 ≡ none
      → (z : Walk) × (walk digest loads room log.redactions (room_rows log room) start ≡ (z, none))
        × (z.pending ≡ [])
        × Counts digest loads (lookup str room log.counters) z.last_sequence
  unfolding verify_room verify_rows check_tail
  walked-of_verify log room h =
      let r = walk digest loads room log.redactions (room_rows log room) start in
      let unbroken : r.1 ≡ none = ground arith in
      (r.0, ap (λ b. (r.0, b)) unbroken, ground arith, ground arith)

  pub verify-of_walked :
      (log : Log) (room : String) (z : Walk)
      → walk digest loads room log.redactions (room_rows log room) start ≡ (z, none)
      → z.pending ≡ []
      → Counts digest loads (lookup str room log.counters) z.last_sequence
      → (verify_room digest loads log room).1 ≡ none
  unfolding verify_room verify_rows check_tail
  verify-of_walked log room z h p c = ground arith

  module _ (room_id : String) (redactions : List RedactionRow) where
    -- A walk without a break ends with the last row's hash and has counted the rows twice over.
    pub walk_counts :
        (rows : List EventRow) (w z : Walk)
        → walk digest loads room_id redactions rows w ≡ (z, none)
        → (z.prev_hash ≡ hash_after w.prev_hash rows)
          × (z.last_sequence ≡ w.last_sequence + length rows)
          × (z.verified ≡ w.verified + length rows)
    unfolding walk hash_after
    walk_counts [] w z h =
        let same : w ≡ z = ap (λ (r : Walk × Option ChainBreak). r.0) h in
        subst
          (λ k.
            (k.prev_hash ≡ w.prev_hash)
            × (k.last_sequence ≡ w.last_sequence + 0)
            × (k.verified ≡ w.verified + 0))
          same (refl, omega arith, omega arith)
    walk_counts (row ∷ rows) w z h =
        let (w₁, x, rest) = walk-step digest loads room_id redactions row rows w z h in
        let (hash, last) = pass-event_hash digest loads room_id redactions row w w₁ x in
        let (p, n, v) = walk_counts rows w₁ z rest in
        let next = x.next in
        let verified : w₁.verified ≡ w.verified + 1 = ap (λ (k : Walk). k.verified) x.result in
        (p ∙ ap (λ q. hash_after q rows) hash, omega arith, omega arith)

    pub walk_end :
        (rows : List EventRow) (z : Walk)
        → walk digest loads room_id redactions rows start ≡ (z, none)
        → (z.prev_hash ≡ last_hash rows)
          × (z.last_sequence ≡ length rows)
          × (z.verified ≡ length rows)
    unfolding start
    walk_end rows z h = let (p, n, v) = walk_counts rows start z h in (p, omega arith, omega arith)

    -- A walk is a walk over the first rows and one over the others.
    pub walk-split :
        (before rest : List EventRow) (w z : Walk)
        → walk digest loads room_id redactions (before ++ rest) w ≡ (z, none)
        → (mid : Walk) × (walk digest loads room_id redactions before w ≡ (mid, none))
          × (walk digest loads room_id redactions rest mid ≡ (z, none))
    unfolding walk
    walk-split [] rest w z h = (w, refl, h)
    walk-split (row ∷ before) rest w z h =
        let (w₁, x, later) = walk-step digest loads room_id redactions row (before ++ rest) w z h in
        let (mid, first, second) = walk-split before rest w₁ z later in
        (mid, walk-join digest loads room_id redactions row before w w₁ mid x first, second)

    pub walk-append :
        (before rest : List EventRow) (w mid : Walk)
        → walk digest loads room_id redactions before w ≡ (mid, none)
        → walk digest loads room_id redactions (before ++ rest) w
          ≡ walk digest loads room_id redactions rest mid
    unfolding walk
    walk-append [] rest w mid h =
        ap (λ (r : Walk × Option ChainBreak). walk digest loads room_id redactions rest r.0) h
    walk-append (row ∷ before) rest w mid h =
        let (w₁, x, later) = walk-step digest loads room_id redactions row before w mid h in
        let passed = check_row-ok digest loads room_id redactions row w w₁ x in
        rw (passed, walk) (walk-append before rest w₁ mid later)

    -- Without a break the verifier has counted every row.
    pub verify_rows-length :
        (rows : List EventRow) (counter : Option ℕ)
        → (verify_rows digest loads room_id redactions rows counter).1 ≡ none
        → verify_rows digest loads room_id redactions rows counter ≡ (length rows, none)
    unfolding verify_rows
    verify_rows-length rows counter h =
        let r = walk digest loads room_id redactions rows start in
        let unbroken : r.1 ≡ none = ground arith in
        let (_, _, v) = walk_end rows r.0 (ap (λ b. (r.0, b)) unbroken) in ground arith

  pub verify_room-length :
      (log : Log) (room : String)
      → (verify_room digest loads log room).1 ≡ none
      → verify_room digest loads log room ≡ (length (room_rows log room), none)
  unfolding verify_room
  verify_room-length log room h =
      verify_rows-length room log.redactions (room_rows log room) (lookup str room log.counters) h
