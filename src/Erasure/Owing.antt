-- ===== src/Erasure/Owing.antt =====
-- The walk over a log in which one more event is redacted, row by row.
use xyzzy.Prelude.{
  List, Option, String, [], ap, arith, false, insert, none, ok, refl, some, str, subst, sym,
  true≢false, ◌++◌, ◌+◌, ◌∙◌, ◌∷◌, ◌≡◌, ◌≢◌,
}
use xyzzy.Json.{Json}
use xyzzy.Audit.{EventRow, Field, RedactionRow, announced_redactions, redaction_marker}
use xyzzy.Audit.Verify.{Pending, Walk, check_hash, check_marker, check_payload, find_redaction}
use xyzzy.Audit.Pass.{IsPass}
use xyzzy.Erasure.Redacted.{
  Adds, Adds-insert, find-append, find-has, has_redaction, names, settle-Adds,
}

-- The walks agree but for one pending redaction.
pub record IsMore (id : String) (entry : Pending) (w w' : Walk) : Type 0 where
  pub same_hash : w'.prev_hash ≡ w.prev_hash
  pub same_sequence : w'.last_sequence ≡ w.last_sequence
  pub adds : Adds id entry w.pending w'.pending

-- What stays pending for a redaction of an event.
abbrev pub entry_of : EventRow → RedactionRow → Pending
entry_of row r = record {
  at_sequence = row.sequence;
  at_event_id = row.event_id;
  expected_header_hash = r.header_hash;
  expected_original_hash = r.original_event_hash;
}

module _ (digest : List Field → String) (loads : String → Option Json) (room_id : String)
    (reds : List RedactionRow) (new : RedactionRow)
    (free : has_redaction new.redaction_id reds ≡ false) where
  -- A row that stays as it is.
  before_payload :
      (row : EventRow) (w : Walk) (x : String) (p : List (String × Pending))
      → check_payload digest loads room_id reds row w ≡ ok (x, p)
      → check_payload digest loads room_id (reds ++ new ∷ []) row w ≡ ok (x, p)
  unfolding check_payload check_marker
  before_payload row w x p h = by_marker (redaction_marker loads row.payload) refl
    where
      by_found :
          (i : String) (o : Option RedactionRow)
          → redaction_marker loads row.payload ≡ some i
          → find_redaction reds i row.event_id ≡ o
          → check_payload digest loads room_id (reds ++ new ∷ []) row w ≡ ok (x, p)
      by_found i none e e' = ground arith
      by_found i (some r) e e' =
          let found = find-append reds new r i row.event_id e' in ground arith

      by_marker :
          (m : Option String)
          → redaction_marker loads row.payload ≡ m
          → check_payload digest loads room_id (reds ++ new ∷ []) row w ≡ ok (x, p)
      by_marker none e = ground arith
      by_marker (some i) e = by_found i (find_redaction reds i row.event_id) e refl

  pub before-IsPass :
      (row : EventRow) (w w₁ : Walk)
      → IsPass digest loads room_id reds row w w₁
      → IsPass digest loads room_id (reds ++ new ∷ []) row w w₁
  before-IsPass row w w₁ x = record {
    next = x.next;
    linked = x.linked;
    expected = x.expected;
    pending = x.pending;
    payload_ok = before_payload row w x.expected x.pending x.payload_ok;
    left = x.left;
    settled = x.settled;
    result = x.result;
  }

  after_payload :
      (entry : Pending) (row : EventRow) (w w' : Walk) (x : String) (p : List (String × Pending))
      → IsMore new.redaction_id entry w w'
      → check_payload digest loads room_id reds row w ≡ ok (x, p)
      → (p' : List (String × Pending)) × (check_payload digest loads room_id
            (reds ++ new ∷ [])
            row
            w'
          ≡ ok (x, p'))
        × Adds new.redaction_id entry p p'
  unfolding check_payload check_marker check_hash
  after_payload entry row w w' x p m h = by_marker (redaction_marker loads row.payload) refl
    where
      by_found :
          (i : String) (o : Option RedactionRow)
          → redaction_marker loads row.payload ≡ some i
          → find_redaction reds i row.event_id ≡ o
          → (p' : List (String × Pending)) × (check_payload digest loads room_id
                (reds ++ new ∷ [])
                row
                w'
              ≡ ok (x, p'))
            × Adds new.redaction_id entry p p'
      by_found i none e e' = ground arith
      by_found i (some r) e e' =
          let found = find-append reds new r i row.event_id e' in
          let there = find-has reds r i row.event_id e' in
          let other : i ≢ new.redaction_id =
            λ z. true≢false (sym there ∙ (ap (λ k. has_redaction k reds) z ∙ free)) in
          let mine = entry_of row r in
          let same_hash = m.same_hash in
          let p_is : insert str i mine w.pending ≡ p = ground arith in
          (
            insert str i mine w'.pending,
            ground arith,
            subst (λ q. Adds new.redaction_id entry q (insert str i mine w'.pending)) p_is
                (Adds-insert new.redaction_id entry i mine w.pending w'.pending other m.adds),
          )

      by_marker :
          (k : Option String)
          → redaction_marker loads row.payload ≡ k
          → (p' : List (String × Pending)) × (check_payload digest loads room_id
                (reds ++ new ∷ [])
                row
                w'
              ≡ ok (x, p'))
            × Adds new.redaction_id entry p p'
      by_marker none e =
          let same_hash = m.same_hash in
          let p_is : w.pending ≡ p = ground arith in
          (
            w'.pending,
            ground arith,
            subst (λ q. Adds new.redaction_id entry q w'.pending) p_is m.adds,
          )
      by_marker (some i) e = by_found i (find_redaction reds i row.event_id) e refl

  pub after-IsPass :
      (entry : Pending) (row : EventRow) (w w' w₁ : Walk)
      → IsMore new.redaction_id entry w w'
      → names new.redaction_id (announced_redactions loads row.event_type row.payload) ≡ false
      → IsPass digest loads room_id reds row w w₁
      → (w₁' : Walk) × IsPass digest loads room_id (reds ++ new ∷ []) row w' w₁'
        × IsMore new.redaction_id entry w₁ w₁'
  after-IsPass entry row w w' w₁ m n x =
      let (p', paid, adds) = after_payload entry row w w' x.expected x.pending m x.payload_ok in
      let (q', settled, left) =
        settle-Adds new.redaction_id entry (announced_redactions loads row.event_type row.payload)
          x.pending p' x.left n adds x.settled in
      (
        record {
          prev_hash = x.expected;
          last_sequence = row.sequence;
          verified = w'.verified + 1;
          pending = q';
        },
        record {
          next = x.next ∙ ap (λ k. k + 1) (sym m.same_sequence);
          linked = x.linked ∙ ap some (sym m.same_hash);
          expected = x.expected;
          pending = p';
          payload_ok = paid;
          left = q';
          settled = settled;
          result = refl;
        },
        record {
          same_hash = ap (λ (k : Walk). k.prev_hash) (sym x.result);
          same_sequence = ap (λ (k : Walk). k.last_sequence) (sym x.result);
          adds = subst (λ (k : Walk). Adds new.redaction_id entry k.pending q') (sym x.result) left;
        },
      )
