-- ===== src/Audit/Commitment.antt =====
-- The last hash of a verified log and the rows before it.
use xyzzy.Prelude.{List, Option, String, [], arith, length, none, refl, some, suc, ℕ, ◌∷◌, ◌≡◌}
use xyzzy.Json.{Json}
use xyzzy.Audit.{EventRow, Field, RedactionRow, chain_material, event_chain_hash, genesis_hash}
use xyzzy.Audit.Rooms.{verify_rows}
use xyzzy.Audit.Linked.{Linked, Unredacted, head_hash, verify_rows_iff}

chain_material_inj :
    (prev prev' room : String) (r r' : EventRow)
    → chain_material prev room r ≡ chain_material prev' room r'
    → (prev ≡ prev')
      × (r.event_id ≡ r'.event_id)
      × (r.sequence ≡ r'.sequence)
      × (r.event_type ≡ r'.event_type)
      × (r.payload ≡ r'.payload)
      × (r.actor_id ≡ r'.actor_id)
      × (r.actor_type ≡ r'.actor_type)
      × (r.timestamp ≡ r'.timestamp)
      × (r.schema_version ≡ r'.schema_version)
unfolding chain_material
chain_material_inj prev prev' room r r' h = (cc, cc, cc, cc, cc, cc, cc, cc, cc)

module _ (digest : List Field → String) (loads : String → Option Json) (room_id : String) where
  -- At each place of two logs the digests tell the hashed texts apart.
  abbrev pub NoCollision : String → String → List EventRow → List EventRow → Type 0
  NoCollision prev prev' [] rs = Unit {0}
  NoCollision prev prev' (r ∷ rs) [] = Unit {0}
  NoCollision prev prev' (r ∷ rs) (r' ∷ rs') =
      (digest (chain_material prev room_id r) ≡ digest (chain_material prev' room_id r')
        → chain_material prev room_id r ≡ chain_material prev' room_id r')
      × NoCollision (event_chain_hash digest prev room_id r)
          (event_chain_hash digest prev' room_id r') rs rs'

  head_commits :
      (rows rows' : List EventRow) (prev prev' : String) (n n' : ℕ)
      → Linked digest loads room_id prev n rows
      → Linked digest loads room_id prev' n' rows'
      → length rows ≡ length rows'
      → NoCollision prev prev' rows rows'
      → head_hash digest loads room_id prev rows ≡ head_hash digest loads room_id prev' rows'
      → (prev ≡ prev') × (rows ≡ rows')
  unfolding event_chain_hash
  head_commits [] [] prev prev' n n' l l' s c h = (h, refl)
  head_commits [] (r' ∷ rs') prev prev' n n' l l' s c h = absurd (omega arith)
  head_commits (r ∷ rs) [] prev prev' n n' l l' s c h = absurd (omega arith)
  head_commits (r ∷ rs) (r' ∷ rs') prev prev' n n' l l' s c h =
      let (same, tails) =
        head_commits rs rs' (event_chain_hash digest prev room_id r)
          (event_chain_hash digest prev' room_id r') (suc n) (suc n') l.3 l'.3 (omega arith) c.1
          h in
      let (p, e₁, e₂, e₃, e₄, e₅, e₆, e₇, e₈) =
        chain_material_inj prev prev' room_id r r' (c.0 same) in
      let linked : r.prev_hash ≡ r'.prev_hash = cc in
      let hashed : r.event_hash ≡ r'.event_hash = cc in
      let row_same : r ≡ r' = λ i. record {
        event_id = e₁ i;
        sequence = e₂ i;
        event_type = e₃ i;
        payload = e₄ i;
        actor_id = e₅ i;
        actor_type = e₆ i;
        timestamp = e₇ i;
        schema_version = e₈ i;
        prev_hash = linked i;
        event_hash = hashed i;
      } in
      (p, λ i. row_same i ∷ tails i)

  -- Two logs of one room without a redaction marker in them, that the verifier accepts against one
  -- counter, whose chains end in the same hash and on whose rows the digest has no collision, are the
  -- same log, row by row.
  pub verified_logs_agree :
      (redactions redactions' : List RedactionRow) (rows rows' : List EventRow) (counter : ℕ)
      → Unredacted digest loads rows
      → Unredacted digest loads rows'
      → verify_rows digest loads room_id redactions rows (some counter) ≡ (length rows, none)
      → verify_rows digest loads room_id redactions' rows' (some counter) ≡ (length rows', none)
      → head_hash digest loads room_id genesis_hash rows
        ≡ head_hash digest loads room_id genesis_hash rows'
      → NoCollision genesis_hash genesis_hash rows rows'
      → rows ≡ rows'
  verified_logs_agree redactions redactions' rows rows' counter u u' h h' same c =
      let (l, n) = (verify_rows_iff digest loads room_id redactions rows (some counter) u).0 h in
      let (l', n') =
        (verify_rows_iff digest loads room_id redactions' rows' (some counter) u').0 h' in
      (head_commits rows rows' genesis_hash genesis_hash 0 0 l l' (omega arith) c same).1
