-- ===== src/Run/Principals.antt =====
-- The principals that bound a run, as callers are recorded (`ExecutionRepo.record_caller_in_transaction`,
-- `bounding_principals`).
use xyzzy.Capability.{agent_principal}
use xyzzy.Prelude.{
  Bool, Bool-cases, List, String, [], ap, arith, contains, contains-append, false, inl, inr, insert,
  ite, lookup, lookup-insert_ne, lookup-insert_self, map, not, ok, refl, some, str, subst, sym,
  true, ◌&&◌, ◌++◌, ◌||◌, ◌∙◌, ◌∷◌, ◌≡◌,
}
use xyzzy.Run.{Execution, RunRows}
use xyzzy.Run.Callers.{callers_of, insert_caller, with_caller}
use xyzzy.Run.Start.{authorizer, bounding_principals_of, chain_of, record_caller_in_transaction}

unfoldable pub is_text : String → String → Bool
is_text a b = ite (str a b) true false

contains-single : (p q : String) → contains str p (q ∷ []) ≡ is_text p q
unfolding contains is_text
contains-single p q = refl

contains-with_caller :
    (p caller_id : String) (callers : List String)
    → contains str p (with_caller caller_id callers)
      ≡ (contains str p callers || is_text p caller_id)
unfolding is_text
contains-with_caller p caller_id callers = elim (Bool-cases (contains str caller_id callers)) [
  | inl there ↦ elim (str p caller_id) [
    | yes e ↦
        let mine : contains str p callers ≡ true =
          subst (λ i. contains str i callers ≡ true) (sym e) there in
        ground arith
    | no ne ↦ ground arith
  ]
  | inr fresh ↦
      let last : contains str p (caller_id ∷ []) ≡ is_text p caller_id =
        contains-single p caller_id in
      ground (arith, contains-append str p callers (caller_id ∷ []))
]

-- The rows once a caller is recorded.
abbrev with_recorded : RunRows → String → String → RunRows
with_recorded db execution_id caller_id = record db {
  execution_callers = insert_caller execution_id caller_id db.execution_callers;
}

-- The callers of an execution once one is recorded.
callers-record :
    (db : RunRows) (execution_id caller_id j p : String)
    → contains str p (callers_of (insert_caller execution_id caller_id db.execution_callers) j) ≡ (
        contains str p (callers_of db.execution_callers j)
        || (not (is_text caller_id "") && (is_text j execution_id && is_text p caller_id)))
unfolding insert_caller is_text
callers-record db execution_id caller_id j p = elim (str caller_id "") [
  | yes e ↦ ground arith
  | no ne ↦
      let callers = with_caller caller_id (callers_of db.execution_callers execution_id) in
      elim (str j execution_id) [
        | yes same ↦
            let hit : lookup str j (insert str execution_id callers db.execution_callers)
                ≡ some callers =
              ap (λ i. lookup str i (insert str execution_id callers db.execution_callers)) same
              ∙ lookup-insert_self str execution_id callers db.execution_callers in
            let old : contains str p (callers_of db.execution_callers execution_id)
                ≡ contains str p (callers_of db.execution_callers j) =
              ap (λ i. contains str p (callers_of db.execution_callers i)) (sym same) in
            let both =
              contains-with_caller p caller_id (callers_of db.execution_callers execution_id) in
            ground arith
        | no other ↦
            let miss : lookup str j (insert str execution_id callers db.execution_callers)
                ≡ lookup str j db.execution_callers =
              lookup-insert_ne str execution_id j callers db.execution_callers other in
            ground arith
      ]
]

-- The principals of a run who are not its recorded callers.
unfoldable standing : RunRows → String → List String
standing db j =
    callers_of db.execution_interventions j
    ++ map agent_principal (chain_of db.tasks (lookup str j db.tasks.execution_tasks))

contains-bounding :
    (db : RunRows) (j p : String)
    → contains str p (bounding_principals_of db j) ≡ (
        contains str p (authorizer (lookup str j db.executions))
        || (contains str p (callers_of db.execution_callers j) || contains str p (standing db j)))
unfolding bounding_principals_of standing
contains-bounding db j p =
    let xs = authorizer (lookup str j db.executions) in
    let ys = callers_of db.execution_callers j in
    let zs = standing db j in
    contains-append str p xs (ys ++ zs)
    ∙ ap (λ b. contains str p xs || b) (contains-append str p ys zs)

or_shuffle : (a b x c : Bool) → (a || ((b || x) || c)) ≡ ((a || (b || c)) || x)
or_shuffle a b x c = ground arith

bounding-with_recorded :
    (db : RunRows) (execution_id caller_id j p : String)
    → contains str p (bounding_principals_of (with_recorded db execution_id caller_id) j) ≡ (
        contains str p (bounding_principals_of db j)
        || (not (is_text caller_id "") && (is_text j execution_id && is_text p caller_id)))
unfolding standing
bounding-with_recorded db execution_id caller_id j p =
    let db' = with_recorded db execution_id caller_id in
    let old = contains-bounding db j p in
    let new = contains-bounding db' j p in
    let callers = callers-record db execution_id caller_id j p in
    rw (new, old, callers)
      (or_shuffle (contains str p (authorizer (lookup str j db.executions)))
        (contains str p (callers_of db.execution_callers j))
        (not (is_text caller_id "") && (is_text j execution_id && is_text p caller_id))
        (contains str p (standing db j)))

record_caller-ok :
    (db : RunRows) (execution_id caller_id : String) (e : Execution)
    → lookup str execution_id db.executions ≡ some e
    → record_caller_in_transaction true db execution_id caller_id
      ≡ ok (with_recorded db execution_id caller_id)
unfolding record_caller_in_transaction insert_caller
record_caller-ok db execution_id caller_id e known = elim (str caller_id "") [
  | yes empty ↦ ground arith
  | no ne ↦ ground arith
]

-- Under a transaction, recording a caller of an execution that there is goes through. It adds that
-- caller to the principals that bound the execution, unless the caller is the empty text; it takes
-- nobody away, adds nobody else, and leaves the principals of every other execution as they were.
pub bounding-record_caller :
    (db : RunRows) (execution_id caller_id : String) (e : Execution)
    → lookup str execution_id db.executions ≡ some e
    → (db' : RunRows) × (record_caller_in_transaction true db execution_id caller_id ≡ ok db')
      × ((j p : String)
          → contains str p (bounding_principals_of db' j) ≡ (
              contains str p (bounding_principals_of db j)
              || (not (is_text caller_id "") && (is_text j execution_id && is_text p caller_id))))
bounding-record_caller db execution_id caller_id e known = (
  with_recorded db execution_id caller_id,
  record_caller-ok db execution_id caller_id e known,
  λ j p. bounding-with_recorded db execution_id caller_id j p,
)
