-- ===== src/Reader/Pages.antt =====
-- The loop of `get_room_events` against the one read that it stands for.
use xyzzy.Audit.{EventRow}
use xyzzy.Events.{list_since}
use xyzzy.Reader.{get_room_events, last_sequence_of, page_limit, read_pages, room_events_max_limit}
use xyzzy.Reader.Sorted.{Ascending, past, past-cursor}
use xyzzy.Prelude.{
  Bool-cases, List, [], ap, arith, drop, false, inl, inr, length, length-append, ltb, ltb→lt,
  lt→ltb, map_found, max, min, refl, some, suc, sym, take, true, zero, ℕ, ◌++◌, ◌+◌, ◌-◌, ◌<◌, ◌∙◌,
  ◌∷◌, ◌≡◌, ◌≤◌,
}

append-nil {ℓ} : {A : Type ℓ} → (xs : List A) → xs ++ [] ≡ xs
append-nil [] = refl
append-nil (x ∷ xs) = ap (λ ys. x ∷ ys) (append-nil xs)

append_assoc {ℓ} : {A : Type ℓ} → (xs ys zs : List A) → (xs ++ ys) ++ zs ≡ xs ++ (ys ++ zs)
append_assoc [] ys zs = refl
append_assoc (x ∷ xs) ys zs = ap (λ ws. x ∷ ws) (append_assoc xs ys zs)

pub length-take {ℓ} : {A : Type ℓ} → (k : ℕ) (xs : List A) → length (take k xs) ≤ k
length-take zero xs = omega arith
length-take (suc k) [] = omega arith
length-take (suc k) (x ∷ xs) = omega (arith, length-take k xs)

-- A page that is not full is the last.
take-short {ℓ} :
    {A : Type ℓ} → (k m : ℕ) (xs : List A) → length (take k xs) < k → k ≤ m → take k xs ≡ take m xs
take-short zero m xs lt le = absurd (omega arith)
take-short (suc k) zero xs lt le = absurd (omega arith)
take-short (suc k) (suc m) [] lt le = refl
take-short (suc k) (suc m) (x ∷ xs) lt le =
    ap (λ ys. x ∷ ys) (take-short k m xs (omega arith) (omega arith))

pub take-nil {ℓ} : {A : Type ℓ} → (n : ℕ) → take {A = A} n [] ≡ []
take-nil zero = refl
take-nil (suc n) = refl

pub drop-short {ℓ} : {A : Type ℓ} → (k : ℕ) (xs : List A) → length (take k xs) < k → drop k xs ≡ []
drop-short zero xs lt = absurd (omega arith)
drop-short (suc k) [] lt = refl
drop-short (suc k) (x ∷ xs) lt = drop-short k xs (omega arith)

take-drop {ℓ} :
    {A : Type ℓ}
    → (k m n : ℕ) (xs : List A) → n ≡ k + m
    → take k xs ++ take m (drop k xs) ≡ take n xs
take-drop zero m n xs e = let same : m ≡ n = omega arith in ap (λ i. take i xs) same
take-drop (suc k) m n [] e = take-nil m ∙ sym (take-nil n)
take-drop (suc k) m zero (x ∷ xs) e = absurd (omega arith)
take-drop (suc k) m (suc n) (x ∷ xs) e = ap (λ ys. x ∷ ys) (take-drop k m n xs (omega arith))

take-take {ℓ} : {A : Type ℓ} → (k : ℕ) (xs : List A) → take k (take k xs) ≡ take k xs
take-take zero xs = refl
take-take (suc k) [] = refl
take-take (suc k) (x ∷ xs) = ap (λ ys. x ∷ ys) (take-take k xs)

-- What is still to be read under the cap.
abbrev wanted : ℕ → List EventRow → ℕ
wanted capped events = capped - length events

read_pages_whole :
    (fuel : ℕ) (rows : List EventRow) (capped after : ℕ) (events : List EventRow)
    → Ascending rows
    → length events ≤ capped
    → wanted capped events < fuel
    → read_pages fuel rows capped after events
      ≡ some (events ++ take (wanted capped events) (past after rows))
unfolding read_pages list_since
read_pages_whole zero rows capped after events s le lt = absurd (omega arith)
read_pages_whole (suc fuel) rows capped after events s le lt =
    by_past (past after rows) refl (min page_limit (wanted capped events)) refl
      (λ cursor more le' lt'. read_pages_whole fuel rows capped cursor (events ++ more) s le' lt')
  where
    by_past :
        (ys : List EventRow)
        → past after rows ≡ ys
        → (n : ℕ) → min page_limit (wanted capped events) ≡ n
        → ((cursor : ℕ) (more : List EventRow)
            → length (events ++ more) ≤ capped
            → wanted capped (events ++ more) < fuel
            → read_pages fuel rows capped cursor (events ++ more)
              ≡ some ((events ++ more) ++ take (wanted capped (events ++ more)) (past cursor rows)))
        → read_pages (suc fuel) rows capped after events
          ≡ some (events ++ take (wanted capped events) ys)
    by_past ys e zero n later =
        let full : wanted capped events ≡ 0 = omega arith in
        let shut : ltb (length events) capped ≡ false = ground arith in
        let nothing : take (wanted capped events) ys ≡ [] = ap (λ i. take i ys) full in
        let same = append-nil events in ground arith
    by_past [] e (suc k) n later =
        let empty : take (min page_limit (wanted capped events)) (past after rows) ≡ [] =
          ap (λ i. take i (past after rows)) n ∙ ap (take (suc k)) e in
        let nothing : take (wanted capped events) [] ≡ [] =
          take-nil {A = EventRow} (wanted capped events) in
        let same = append-nil events in ground arith
    by_past (row ∷ rest) e (suc k) n later =
        let page : take (min page_limit (wanted capped events)) (past after rows)
            ≡ row ∷ take k rest =
          ap (λ i. take i (past after rows)) n ∙ ap (take (suc k)) e in
        let room : ltb (length events) capped ≡ true =
          lt→ltb (length events) capped (omega arith) in
        let w = wanted capped events - 1 in
        let is_suc : wanted capped events ≡ suc w = omega arith in
        let target : take (wanted capped events) (row ∷ rest) ≡ row ∷ take w rest =
          ap (λ i. take i (row ∷ rest)) is_suc in
        let fits : k ≤ w = omega arith in
        let events' = events ++ row ∷ take k rest in
        let cursor = last_sequence_of row (take k rest) in
        elim (Bool-cases
          (ltb (length (row ∷ take k rest)) (min page_limit (wanted capped events)))) [
            | inl short ↦
                let less : length (take k rest) < k =
                  (let l =
                      ltb→lt (length (row ∷ take k rest)) (min page_limit (wanted capped events))
                        short in
                    omega arith) in
                let all = take-short k w rest less fits in ground arith
            | inr whole ↦
                let is_k : length (take k rest) ≡ k =
                  (let most = length-take k rest in ground arith) in
                let grown : length events' ≡ length events + suc k =
                  omega (arith, length-append events (row ∷ take k rest), is_k) in
                let rec = later cursor (row ∷ take k rest) (omega arith) (omega arith) in
                let left : wanted capped events' ≡ w - k = omega arith in
                let rest_is : past cursor rows ≡ drop k rest =
                  past-cursor after k rows row rest s e in
                let joined : take k rest ++ take (w - k) (drop k rest) ≡ take w rest =
                  take-drop k (w - k) w rest (omega arith) in
                let step : read_pages (suc fuel) rows capped after events
                    ≡ read_pages fuel rows capped cursor events' =
                  ground arith in
                let tail : take (wanted capped events') (past cursor rows)
                    ≡ take (w - k) (drop k rest) =
                  ap (λ i. take i (past cursor rows)) left ∙ ap (take (w - k)) rest_is in
                let all : events' ++ take (wanted capped events') (past cursor rows)
                    ≡ events ++ take (wanted capped events) (row ∷ rest) =
                  ap (λ ys. events' ++ ys) tail
                  ∙ (append_assoc events (row ∷ take k rest) (take (w - k) (drop k rest))
                      ∙ ap (λ ys. events ++ ys) (ap (λ ys. row ∷ ys) joined ∙ sym target)) in
                step ∙ (rec ∙ ap some all)
          ]

-- The paged read of a room's events always comes to an end, within one page for each event that the
-- cap allows and one more, and returns what one unpaged query would: the first rows past the cursor,
-- in their order, up to the cap. The room's rows stand in the order of their sequence.
pub get_room_events-list_since :
    (rows : List EventRow) (after limit : ℕ)
    → Ascending rows
    → get_room_events rows after limit
      ≡ some (list_since after (max 1 (min limit room_events_max_limit)) rows)
unfolding get_room_events list_since
get_room_events-list_since rows after limit s =
    let capped = max 1 (min limit room_events_max_limit) in
    let all : capped - 0 ≡ capped = omega arith in
    ap (map_found (take capped))
      (read_pages_whole (suc capped) rows capped after [] s (omega arith) (omega arith))
    ∙ (ap (λ n. some (take capped (take n (past after rows)))) all
        ∙ ap some (take-take capped (past after rows)))
