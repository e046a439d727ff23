-- ===== src/Run/Start.antt =====
-- The start of an execution, and the principals that bound it (`ExecutionRepo.start_with_event`,
-- `record_caller_in_transaction`, `bounding_principals`, `BranchRepo.get_or_create_legacy` of
-- src/multiplayer/db/repositories.py).
use xyzzy.Prelude.{
  Bool, List, Option, Result, String, [], err, false, guard, if◌then◌else◌, insert, ite, lookup,
  map, none, not, ok, some, str, true, ℕ, ◌++◌, ◌>>=◌, ◌>>◌, ◌∷◌,
}
use xyzzy.Models.{BranchStatus}
use xyzzy.Events.{RoomEvent}
use xyzzy.Capability.{agent_principal}
use xyzzy.Delegation.Rows.{TaskRows, rows_of}
use xyzzy.Run.{
  AgentRun, AgentSession, Branch, Execution, RunError, RunRows, TurnLock, any_row, given,
  session_active,
}
use xyzzy.Run.Callers.{callers_of, insert_caller, record_launch_caller}
use xyzzy.Run.Branches.{get_active}
use xyzzy.Run.Finish.{append_notices, transaction}

-- The room's branch for the low-level interface, which is not managed.
unfoldable pub legacy_branch_of : List (String × Branch) → String → Option String
legacy_branch_of [] room_id = none
legacy_branch_of ((branch_id, b) ∷ rest) room_id =
    let later = legacy_branch_of rest room_id in
    if ite (str b.room_id room_id) (not b.lifecycle_managed) false then some branch_id else later

unfoldable pub get_or_create_legacy : RunRows → String → String → ℕ → RunRows × String
unfolding legacy_branch_of
get_or_create_legacy db room_id new_branch_id now = elim (legacy_branch_of db.branches room_id) [
  | some branch_id ↦ (db, branch_id)
  | none ↦ (
    record db {
      branches =
          insert str new_branch_id
            (record {
              room_id = room_id;
              status = BranchStatus.running;
              lifecycle_managed = false;
              updated_at = now;
              completed_at = none;
            })
            db.branches;
    },
    new_branch_id,
  )
]

abbrev pub is_filed {ℓ} : {A : Type ℓ} → Option A → Bool
is_filed none = false
is_filed (some _) = true

-- A trigger of the schema refuses a second row of a run or of an execution, and the execution is a
-- foreign key.
unfoldable pub create_run_in_transaction : RunRows → String → AgentRun → Result RunError RunRows
unfolding record_launch_caller
create_run_in_transaction db execution_id run = do
  guard
      (not (
        any_row (λ (_ : String) (r : AgentRun). ite (str r.run_id run.run_id) true false)
          db.agent_runs))
      RunError.integrity_error
  guard (is_filed (lookup str execution_id db.executions)) RunError.integrity_error
  elim (lookup str execution_id db.agent_runs) [
    | some _ ↦ err RunError.integrity_error
    | none ↦ ok (record db {
      agent_runs = insert str execution_id run db.agent_runs;
      execution_callers = record_launch_caller execution_id run db.execution_callers;
    })
  ]

abbrev pub create_run_if : RunRows → String → Option AgentRun → Result RunError RunRows
create_run_if db execution_id none = ok db
create_run_if db execution_id (some run) = create_run_in_transaction db execution_id run

abbrev pub linked_task : String → Option String → List (String × String) → List (String × String)
linked_task execution_id none links = links
linked_task execution_id (some task_id) links = insert str execution_id task_id links

unfoldable pub insert_execution : RunRows → Execution → Option String → Result RunError RunRows
insert_execution db e agent_task_id = elim (lookup str e.execution_id db.executions) [
  | some _ ↦ err RunError.integrity_error
  | none ↦ ok (record db {
    executions = insert str e.execution_id e db.executions;
    tasks = record db.tasks {
      execution_tasks = linked_task e.execution_id agent_task_id db.tasks.execution_tasks;
    };
  })
]

-- `UPDATE sessions SET status = ? WHERE session_id = ?`
unfoldable pub activate_session : RunRows → String → AgentSession → RunRows
activate_session db session_id session = record db {
  agent_sessions =
      insert str session_id (record session { status = session_active }) db.agent_sessions;
}

-- Another branch that has the room's turn.
abbrev pub locked_out : Option TurnLock → String → Bool
locked_out none branch_id = false
locked_out (some lock) branch_id = ite (str branch_id lock.branch_id) false true

-- The rows and the execution with its branch, which may be the legacy one.
unfoldable pub with_branch : RunRows → Execution → String → String → ℕ → RunRows × Execution
with_branch db e room_id new_branch_id now =
    let (db', branch_id) = get_or_create_legacy db room_id new_branch_id now in
    ite (str e.branch_id "") (db', record e { branch_id = branch_id }) (db, e)

unfoldable pub start_in_transaction :
    RunRows
    → Execution
    → Option String
    → RoomEvent
    → Option AgentRun
    → String
    → ℕ
    → Result RunError RunRows
unfolding activate_session with_branch append_notices insert_execution create_run_in_transaction
start_in_transaction db execution agent_task_id event agent_run new_branch_id now =
    elim (lookup str execution.session_id db.agent_sessions) [
      | none ↦ err RunError.domain_error
      | some session ↦ do
        guard (not (locked_out (get_active db.turn_locks session.room_id) execution.branch_id))
            RunError.domain_error
        let (db₁, e) = with_branch db execution session.room_id new_branch_id now
        db₂ ← insert_execution (activate_session db₁ e.session_id session) e agent_task_id
        db₃ ← create_run_if db₂ e.execution_id agent_run
        ok (append_notices db₃ (given event ∷ []))
    ]

unfoldable pub start_with_event :
    RunRows
    → Execution
    → Option String
    → RoomEvent
    → Option AgentRun
    → String
    → ℕ
    → Result RunError RunRows
start_with_event db execution agent_task_id event agent_run new_branch_id now =
    transaction db (λ (db' : RunRows).
      start_in_transaction db' execution agent_task_id event agent_run new_branch_id now)

-- The body of `record_caller`, for a caller that owns the transaction. A caller is recorded for an
-- execution that there is: the column is a foreign key.
unfoldable pub record_caller_in_transaction :
    Bool → RunRows → String → String → Result RunError RunRows
unfolding insert_caller
record_caller_in_transaction owns_transaction db execution_id caller_id =
    ite (str caller_id "") (ok db) (do
      guard owns_transaction RunError.runtime_error
      elim (lookup str execution_id db.executions) [
        | none ↦ err RunError.integrity_error
        | some _ ↦ ok (record db {
          execution_callers = insert_caller execution_id caller_id db.execution_callers;
        })
      ])

abbrev pub authorizer : Option Execution → List String
authorizer none = []
authorizer (some e) = e.authorized_by ∷ []

abbrev pub chain_of : TaskRows → Option String → List String
chain_of tasks none = []
chain_of tasks (some task_id) = rows_of (lookup str task_id tasks.agent_task_chain)

-- The union of the four arms; a set is read through `contains`.
unfoldable pub bounding_principals_of : RunRows → String → List String
unfolding agent_principal
bounding_principals_of db execution_id =
    authorizer (lookup str execution_id db.executions)
    ++ (callers_of db.execution_callers execution_id
        ++ (callers_of db.execution_interventions execution_id
            ++ map agent_principal
                (chain_of db.tasks (lookup str execution_id db.tasks.execution_tasks))))
