-- ===== src/Reader/Backfill.antt =====
-- The backfill of a socket against the rows that it missed.
use xyzzy.Prelude.{
  Bool, Bool-cases, List, Option, [], ap, arith, drop, if◌then◌else◌, inl, inr, length, ltb, ltb→lt,
  none, refl, some, suc, sym, take, zero, ℕ, ◌<◌, ◌∙◌, ◌∷◌, ◌≡◌, ◌≤◌,
}
use xyzzy.Audit.{EventRow}
use xyzzy.Events.{list_since}
use xyzzy.Reader.{backfill, backfill_page_size, get_room_events, last_sequence_of, send_page}
use xyzzy.Reader.Sorted.{Ascending, past, past-cursor}
use xyzzy.Reader.Pages.{drop-short, get_room_events-list_since}

-- The rows one after another until one is no longer allowed, and the last sequence if all were.
unfoldable pub replayed : (EventRow → Bool) → List EventRow → ℕ → List EventRow × Option ℕ
replayed allowed [] cursor = ([], some cursor)
replayed allowed (row ∷ rows) cursor =
    let (rest, mark) = replayed allowed rows row.sequence in
    if allowed row then (row ∷ rest, mark) else ([], none)

send_page-replayed :
    (allowed : EventRow → Bool) (k : ℕ) (row : EventRow) (rest : List EventRow) (cursor : ℕ)
    → send_page allowed
        (row ∷ take k rest)
        (some (replayed allowed (drop k rest) (last_sequence_of row (take k rest))))
      ≡ some (replayed allowed (row ∷ rest) cursor)
unfolding send_page replayed last_sequence_of
send_page-replayed allowed zero row rest cursor = ground arith
send_page-replayed allowed (suc k) row [] cursor = ground arith
send_page-replayed allowed (suc k) row (r ∷ rest) cursor =
    let later = send_page-replayed allowed k r rest row.sequence in ground arith

length-drop {ℓ} : {A : Type ℓ} → (k : ℕ) (xs : List A) → length (drop k xs) ≤ length xs
length-drop zero xs = omega arith
length-drop (suc k) [] = omega arith
length-drop (suc k) (x ∷ xs) = omega (arith, length-drop k xs)

-- The backfill of a socket always comes to an end, and sends every row past the cursor, in order,
-- page after page without a gap or a repeat, until the reader is no longer authorized for one. Where
-- that never happens the mark it leaves is the sequence of the last row sent, or the cursor where
-- there was none. The room's rows stand in the order of their sequence, and the fuel exceeds the
-- number of rows to send.
pub backfill-replayed :
    (allowed : EventRow → Bool) (fuel : ℕ) (rows : List EventRow) (cursor : ℕ)
    → Ascending rows
    → length (past cursor rows) < fuel
    → backfill allowed fuel rows cursor ≡ some (replayed allowed (past cursor rows) cursor)
unfolding backfill list_since replayed
backfill-replayed allowed zero rows cursor s lt = absurd (omega arith)
backfill-replayed allowed (suc fuel) rows cursor s lt =
    by_past (past cursor rows) refl (λ c lt'. backfill-replayed allowed fuel rows c s lt')
  where
    by_past :
        (ys : List EventRow)
        → past cursor rows ≡ ys
        → ((c : ℕ)
            → length (past c rows) < fuel
            → backfill allowed fuel rows c ≡ some (replayed allowed (past c rows) c))
        → backfill allowed (suc fuel) rows cursor ≡ some (replayed allowed ys cursor)
    by_past [] e later =
        let read : get_room_events rows cursor backfill_page_size ≡ some [] =
          get_room_events-list_since rows cursor backfill_page_size s ∙ ap some (ap (take 500) e) in
        ground arith
    by_past (row ∷ rest) e later =
        let page = take 499 rest in
        let read : get_room_events rows cursor backfill_page_size ≡ some (row ∷ page) =
          get_room_events-list_since rows cursor backfill_page_size s ∙ ap some (ap (take 500) e) in
        let c = last_sequence_of row page in
        let sent = send_page-replayed allowed 499 row rest cursor in
        elim (Bool-cases (ltb (length (row ∷ page)) backfill_page_size)) [
          | inl short ↦
              let l = ltb→lt (length (row ∷ page)) backfill_page_size short in
              let done : drop 499 rest ≡ [] = drop-short 499 rest (omega arith) in
              let end : replayed allowed (drop 499 rest) c ≡ ([], some c) =
                ap (λ ys. replayed allowed ys c) done in
              let step : backfill allowed (suc fuel) rows cursor
                  ≡ send_page allowed (row ∷ page) (some ([], some c)) =
                ground arith in
              step ∙ (ap (λ r. send_page allowed (row ∷ page) (some r)) (sym end) ∙ sent)
          | inr whole ↦
              let rest_is : past c rows ≡ drop 499 rest =
                past-cursor cursor 499 rows row rest s e in
              let fewer : length (past c rows) < fuel =
                omega (arith, length-drop 499 rest, ap length rest_is, ap length e) in
              let rec = later c fewer ∙ ap (λ ys. some (replayed allowed ys c)) rest_is in
              let step : backfill allowed (suc fuel) rows cursor
                  ≡ send_page allowed (row ∷ page) (backfill allowed fuel rows c) =
                ground arith in
              step ∙ (ap (send_page allowed (row ∷ page)) rec ∙ sent)
        ]
