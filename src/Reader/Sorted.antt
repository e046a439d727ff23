-- ===== src/Reader/Sorted.antt =====
-- Rows in the order of their sequence, read from a cursor on.
use xyzzy.Prelude.{
  All, Bool, List, [], ap, arith, drop, false, if◌then◌else◌, keep, ltb, refl, subst, suc, sym,
  take, true, zero, ℕ, ◌<◌, ◌∙◌, ◌∷◌, ◌≡◌, ◌≤◌,
}
use xyzzy.Audit.{EventRow}
use xyzzy.Reader.{last_sequence_of}

-- Every row has a later sequence than those before it.
abbrev pub Ascending : List EventRow → Type 0
Ascending [] = Unit {0}
Ascending (row ∷ rows) = All (λ (r : EventRow). row.sequence < r.sequence) rows × Ascending rows

-- The rows past a cursor.
abbrev pub past : ℕ → List EventRow → List EventRow
past after rows = keep (λ (r : EventRow). ltb after r.sequence) rows

All-past :
    (n after : ℕ) (rows : List EventRow)
    → All (λ (r : EventRow). n < r.sequence) rows
    → All (λ (r : EventRow). n < r.sequence) (past after rows)
All-past n after [] a = tt
All-past n after (row ∷ rows) a = by_test (ltb after row.sequence) (All-past n after rows a.1)
  where
    by_test :
        (b : Bool)
        → All (λ (r : EventRow). n < r.sequence) (past after rows)
        → All
            (λ (r : EventRow). n < r.sequence)
            (if b then row ∷ past after rows else past after rows)
    by_test true later = (a.0, later)
    by_test false later = later

pub past-Ascending :
    (after : ℕ) (rows : List EventRow) → Ascending rows → Ascending (past after rows)
past-Ascending after [] s = tt
past-Ascending after (row ∷ rows) s =
    by_test (ltb after row.sequence) (past-Ascending after rows s.1)
  where
    by_test :
        (b : Bool)
        → Ascending (past after rows)
        → Ascending (if b then row ∷ past after rows else past after rows)
    by_test true later = (All-past row.sequence after rows s.0, later)
    by_test false later = later

past-past :
    (after cursor : ℕ) (rows : List EventRow)
    → after ≤ cursor
    → past cursor (past after rows) ≡ past cursor rows
past-past after cursor [] le = refl
past-past after cursor (row ∷ rows) le = ground (arith, past-past after cursor rows le)

past_whole :
    (cursor : ℕ) (rows : List EventRow)
    → All (λ (r : EventRow). cursor < r.sequence) rows
    → past cursor rows ≡ rows
past_whole cursor [] a = refl
past_whole cursor (row ∷ rows) a = ground (arith, past_whole cursor rows a.1)

last-later :
    (n : ℕ) (row : EventRow) (rows : List EventRow)
    → n < row.sequence
    → Ascending (row ∷ rows)
    → (k : ℕ) → n < last_sequence_of row (take k rows)
unfolding last_sequence_of
last-later n row [] lt s zero = lt
last-later n row [] lt s (suc k) = lt
last-later n row (r ∷ rows) lt s zero = lt
last-later n row (r ∷ rows) lt s (suc k) =
    let next = s.0.0 in let later : n < r.sequence = omega arith in last-later n r rows later s.1 k

-- What lies past a page is what the page left.
past-page :
    (k : ℕ) (row : EventRow) (rows : List EventRow)
    → Ascending (row ∷ rows)
    → past (last_sequence_of row (take k rows)) (row ∷ rows) ≡ drop k rows
unfolding last_sequence_of
past-page zero row rows s = let tail = past_whole row.sequence rows s.0 in ground arith
past-page (suc k) row [] s = ground arith
past-page (suc k) row (r ∷ rows) s =
    let passed : row.sequence < last_sequence_of r (take k rows) =
      last-later row.sequence r rows s.0.0 s.1 k in
    let later = past-page k r rows s.1 in ground arith

last-first :
    (row : EventRow) (rows : List EventRow) (k : ℕ)
    → Ascending (row ∷ rows)
    → row.sequence ≤ last_sequence_of row (take k rows)
unfolding last_sequence_of
last-first row [] zero s = omega arith
last-first row [] (suc k) s = omega arith
last-first row (r ∷ rows) zero s = omega arith
last-first row (r ∷ rows) (suc k) s =
    let later = last-later row.sequence r rows s.0.0 s.1 k in omega arith

first-past :
    (after : ℕ) (rows : List EventRow) (row : EventRow) (rest : List EventRow)
    → past after rows ≡ row ∷ rest
    → after < row.sequence
first-past after [] row rest h = cc
first-past after (r ∷ rows) row rest h =
    let later = λ (h' : past after rows ≡ row ∷ rest). first-past after rows row rest h' in
    ground arith

-- The rows past the end of a page are those that it left of the rows past its cursor.
pub past-cursor :
    (after k : ℕ) (rows : List EventRow) (row : EventRow) (rest : List EventRow)
    → Ascending rows
    → past after rows ≡ row ∷ rest
    → past (last_sequence_of row (take k rest)) rows ≡ drop k rest
past-cursor after k rows row rest s h =
    let sorted : Ascending (row ∷ rest) = subst Ascending h (past-Ascending after rows s) in
    let first = first-past after rows row rest h in
    let last = last-first row rest k sorted in
    let le : after ≤ last_sequence_of row (take k rest) = omega arith in
    sym (past-past after (last_sequence_of row (take k rest)) rows le)
    ∙ (ap (past (last_sequence_of row (take k rest))) h ∙ past-page k row rest sorted)
