-- ===== src/Delegation/Rows.antt =====
-- The rows of agent tasks, and the operations on them (`AgentTaskRepo`,
-- src/multiplayer/db/repositories.py). An operation returns the rows after it, or raises: a raise
-- rolls the caller's transaction back, so it leaves no rows. `utcnow()` and `new_id()` are
-- arguments.
pub mod Guards
pub mod Settling
pub mod Invariant
use xyzzy.Prelude.{
  Bool, List, Option, Result, String, [], contains, err, false, guard, if◌then◌else◌, insert, ite,
  length, lookup, max, none, not, ok, some, str, true, ℕ, ◌++◌, ◌+◌, ◌>>=◌, ◌>>◌, ◌∷◌,
}
use xyzzy.Delegation.{
  AgentTask, TaskError, TaskState, TaskState-discrete, in_terminal_states, require_transition,
}
use xyzzy.Delegation.Parts.{AgentTaskMessage, Part, TaskMessageRole}

pub record TaskRows : Type 0 where
  pub owns_current_transaction : Bool
  pub agent_tasks : List (String × AgentTask)
  pub agent_task_chain : List (String × List String)  -- a task's agents by position
  pub agent_task_messages : List (String × List AgentTaskMessage)  -- a task's, by sequence
  pub execution_tasks : List (String × String)  -- executions.agent_task_id
  pub output_contents : List (String × String)  -- agent_outputs.content by execution

pub data RowError : Type 0 where
  runtime_error integrity_error stale_state : RowError
  refused : TaskError → RowError

-- What the loop over `ancestry` looks for: an agent seen before.
unfoldable pub repeats : List String → List String → Bool
unfolding contains
repeats seen [] = false
repeats seen (agent ∷ rest) = if contains str agent seen then true else repeats (agent ∷ seen) rest

unfoldable pub create_in_transaction :
    TaskRows → AgentTask → List String → Result RowError (TaskRows × AgentTask)
create_in_transaction db task ancestry = do
  guard db.owns_current_transaction runtime_error
  guard (not (repeats [] ancestry)) (refused TaskError.delegation_cycle)
  let stored = record task { depth = length ancestry }
  elim (lookup str stored.task_id db.agent_tasks) [
    | some _ ↦ err integrity_error
    | none ↦ ok (
      record db {
        agent_tasks = insert str stored.task_id stored db.agent_tasks;
        agent_task_chain = insert str stored.task_id ancestry db.agent_task_chain;
      },
      stored,
    )
  ]

-- The `SET` of `transition_in_transaction`.
abbrev pub moved : AgentTask → TaskState → String → ℕ → AgentTask
moved t target refusal_reason now = record t {
  state = target;
  updated_at = now;
  terminal_at = if in_terminal_states target then some now else t.terminal_at;
  refusal_reason = ite (str refusal_reason "") t.refusal_reason refusal_reason;
}

abbrev pub lift_task {ℓ} : {A : Type ℓ} → Result TaskError A → Result RowError A
lift_task (ok a) = ok a
lift_task (err e) = err (refused e)

-- `UPDATE … WHERE task_id = ? AND state = ? RETURNING *`
unfoldable pub update_where_state :
    TaskRows → String → TaskState → TaskState → String → ℕ → Result RowError (TaskRows × AgentTask)
update_where_state db task_id expected target refusal_reason now =
    elim (lookup str task_id db.agent_tasks) [
      | none ↦ err stale_state
      | some t ↦
          ite (TaskState-discrete t.state expected)
            (let t' = moved t target refusal_reason now in
              ok (record db { agent_tasks = insert str task_id t' db.agent_tasks }, t'))
            (err stale_state)
    ]

unfoldable pub transition_in_transaction :
    TaskRows → String → TaskState → TaskState → String → ℕ → Result RowError (TaskRows × AgentTask)
transition_in_transaction db task_id expected target refusal_reason now = do
  guard db.owns_current_transaction runtime_error
  lift_task (require_transition expected target)
  update_where_state db task_id expected target refusal_reason now

unfoldable pub attach_execution_in_transaction :
    TaskRows → String → String → ℕ → Result RowError TaskRows
attach_execution_in_transaction db task_id execution_id now = do
  guard db.owns_current_transaction runtime_error
  elim (lookup str task_id db.agent_tasks) [
    | none ↦ err stale_state
    | some t ↦
        if in_terminal_states t.state
        then err stale_state
        else ok (record db {
          agent_tasks =
              insert str task_id (record t { execution_id = some execution_id; updated_at = now })
                db.agent_tasks;
        })
  ]

-- `COALESCE(MAX(sequence), 0)`
unfoldable pub max_sequence : List AgentTaskMessage → ℕ
max_sequence [] = 0
max_sequence (m ∷ ms) = max m.sequence (max_sequence ms)

abbrev pub rows_of {ℓ} : {A : Type ℓ} → Option (List A) → List A
rows_of none = []
rows_of (some rows) = rows

unfoldable pub append_message_in_transaction :
    TaskRows
    → String
    → TaskMessageRole
    → List Part
    → String
    → ℕ
    → Result RowError (TaskRows × AgentTaskMessage)
append_message_in_transaction db task_id role parts message_id now = do
  guard db.owns_current_transaction runtime_error
  let rows = rows_of (lookup str task_id db.agent_task_messages)
  let message : AgentTaskMessage = record {
    message_id = message_id;
    task_id = task_id;
    sequence = max_sequence rows + 1;
    role = role;
    parts = parts;
    created_at = now;
  }
  elim (lookup str task_id db.agent_tasks) [
    | none ↦ err integrity_error
    | some _ ↦ ok (
      record db {
        agent_task_messages = insert str task_id (rows ++ message ∷ []) db.agent_task_messages;
      },
      message,
    )
  ]

-- The task still driven by this execution.
unfoldable pub for_execution : TaskRows → String → Option AgentTask
for_execution db execution_id = elim (lookup str execution_id db.execution_tasks) [
  | none ↦ none
  | some task_id ↦ elim (lookup str task_id db.agent_tasks) [
    | none ↦ none
    | some t ↦ elim t.execution_id [
      | none ↦ none
      | some driving ↦ ite (str driving execution_id) (some t) none
    ]
  ]
]
