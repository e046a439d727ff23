-- ===== src/Run/Status.antt =====
-- The status that a branch takes from its executions, and its lock.
use xyzzy.Prelude.{
  All, Bool, List, [], arith, contains, false, if_pos, if◌then◌else◌, length, ltb, lt→ltb, refl,
  subst, sym, true, true≢false, ◌∙◌, ◌∷◌, ◌≡◌, ◌≢◌,
}
use xyzzy.Models.{BranchStatus, ExecutionStatus, ExecutionStatus-discrete, is_terminal_status}
use xyzzy.Run.Branches.{all_terminal, derived_status, distinct, is_ended, single_status}

abbrev has_status : ExecutionStatus → List ExecutionStatus → Bool
has_status = contains ExecutionStatus-discrete

contains-distinct :
    (a : ExecutionStatus) (ss : List ExecutionStatus) → has_status a (distinct ss) ≡ has_status a ss
unfolding distinct contains
contains-distinct a [] = refl
contains-distinct a (s ∷ ss) =
    let later = contains-distinct a ss in
    elim (ExecutionStatus-discrete a s) [
      | yes e ↦
          let mine : has_status s (distinct ss) ≡ has_status a (distinct ss) =
            subst (λ x. has_status x (distinct ss) ≡ has_status a (distinct ss)) e refl in
          ground arith
      | no ne ↦ ground arith
    ]

-- No status stands twice.
abbrev Separate : List ExecutionStatus → Type 0
Separate [] = Unit {0}
Separate (s ∷ ss) = (has_status s ss ≡ false) × Separate ss

distinct-Separate : (ss : List ExecutionStatus) → Separate (distinct ss)
unfolding distinct
distinct-Separate [] = tt
distinct-Separate (s ∷ ss) = by_test (has_status s (distinct ss)) refl (distinct-Separate ss)
  where
    by_test :
        (b : Bool)
        → has_status s (distinct ss) ≡ b
        → Separate (distinct ss)
        → Separate (if b then distinct ss else s ∷ distinct ss)
    by_test true e later = later
    by_test false e later = (e, later)

-- What a branch's status says of its executions.
abbrev pub Agrees : BranchStatus → List ExecutionStatus → Type 0
Agrees BranchStatus.completed ss = All (λ s. s ≡ ExecutionStatus.completed) ss
Agrees BranchStatus.failed ss = All (λ s. s ≡ ExecutionStatus.failed) ss
Agrees BranchStatus.cancelled ss = All (λ s. s ≡ ExecutionStatus.cancelled) ss
Agrees BranchStatus.partial ss =
    (a : ExecutionStatus) × (b : ExecutionStatus) × (contains ExecutionStatus-discrete a ss ≡ true)
    × (contains ExecutionStatus-discrete b ss ≡ true)
    × (a ≢ b)
Agrees BranchStatus.pending ss = ⊥
Agrees BranchStatus.running ss = ⊥

members_same :
    (s : ExecutionStatus) (ss : List ExecutionStatus)
    → ((a : ExecutionStatus) → has_status a ss ≡ true → a ≡ s)
    → All (λ a. a ≡ s) ss
unfolding contains
members_same s [] h = tt
members_same s (t ∷ ss) h = (h t (ground arith), members_same s ss (λ a m. h a (ground arith)))

single-Agrees :
    (s : ExecutionStatus) (ss : List ExecutionStatus)
    → is_terminal_status s ≡ true
    → All (λ a. a ≡ s) ss
    → Agrees (single_status s) ss
unfolding single_status is_terminal_status
single-Agrees ExecutionStatus.completed ss t h = h
single-Agrees ExecutionStatus.failed ss t h = h
single-Agrees ExecutionStatus.cancelled ss t h = h
single-Agrees ExecutionStatus.pending ss t h = cc
single-Agrees ExecutionStatus.running ss t h = cc
single-Agrees ExecutionStatus.paused ss t h = cc

contains-head : (a : ExecutionStatus) (ss : List ExecutionStatus) → has_status a (a ∷ ss) ≡ true
unfolding contains
contains-head a ss = if_pos (ExecutionStatus-discrete a a) refl _ _

contains-tail :
    (a b : ExecutionStatus) (ss : List ExecutionStatus)
    → has_status a ss ≡ true
    → has_status a (b ∷ ss) ≡ true
unfolding contains
contains-tail a b ss m = ground arith

only_member : (a d : ExecutionStatus) → has_status a (d ∷ []) ≡ true → a ≡ d
unfolding contains
only_member a d m = elim (ExecutionStatus-discrete a d) [ yes e ↦ e | no ne ↦ ground arith ]

pub derived-Agrees :
    (first : ExecutionStatus) (rest : List ExecutionStatus)
    → all_terminal (first ∷ rest) ≡ true
    → Agrees (derived_status first rest) (first ∷ rest)
unfolding derived_status
derived-Agrees first rest t =
    by_distinct (distinct (first ∷ rest)) (λ a. contains-distinct a (first ∷ rest))
      (distinct-Separate (first ∷ rest))
  where
    by_distinct :
        (ds : List ExecutionStatus)
        → ((a : ExecutionStatus) → has_status a ds ≡ has_status a (first ∷ rest))
        → Separate ds
        → Agrees
            (if ltb 1 (length ds) then BranchStatus.partial else single_status first)
            (first ∷ rest)
    by_distinct [] same sep =
        let bad : has_status first (first ∷ rest) ≡ false = sym (same first) in
        elim (ExecutionStatus-discrete first first) [
          | yes _ ↦ ground arith
          | no ne ↦ absurd (ne refl)
        ]
    by_distinct (d ∷ []) same sep =
        let alone : (a : ExecutionStatus) → has_status a (first ∷ rest) ≡ true → a ≡ d =
          λ a m. only_member a d (same a ∙ m) in
        let head : first ≡ d = alone first (contains-head first rest) in
        let t' : is_terminal_status first ≡ true = ground arith in
        single-Agrees first (first ∷ rest) t'
          (members_same first (first ∷ rest) (λ a m. alone a m ∙ sym head))
    by_distinct (d₁ ∷ d₂ ∷ ds) same sep =
        let two : ltb 1 (length (d₁ ∷ d₂ ∷ ds)) ≡ true =
          lt→ltb 1 (length (d₁ ∷ d₂ ∷ ds)) (omega arith) in
        let m₁ : has_status d₁ (first ∷ rest) ≡ true = sym (same d₁) ∙ contains-head d₁ (d₂ ∷ ds) in
        let m₂ : has_status d₂ (first ∷ rest) ≡ true =
          sym (same d₂) ∙ contains-tail d₂ d₁ (d₂ ∷ ds) (contains-head d₂ ds) in
        rw two (
          d₁,
          d₂,
          m₁,
          m₂,
          λ e.
              true≢false
                (sym (subst (λ x. has_status d₁ (x ∷ ds) ≡ true) e (contains-head d₁ ds)) ∙ sep.0),
        )

pub Agrees-is_ended :
    (s : BranchStatus) (ss : List ExecutionStatus) → Agrees s ss → is_ended s ≡ true
unfolding is_ended
Agrees-is_ended BranchStatus.pending ss h = absurd h
Agrees-is_ended BranchStatus.running ss h = absurd h
Agrees-is_ended BranchStatus.completed ss h = refl
Agrees-is_ended BranchStatus.partial ss h = refl
Agrees-is_ended BranchStatus.failed ss h = refl
Agrees-is_ended BranchStatus.cancelled ss h = refl
