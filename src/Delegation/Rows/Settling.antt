-- ===== src/Delegation/Rows/Settling.antt =====
-- A run's settlement carried over to the task it answers
-- (`AgentTaskRepo.settle_for_execution_in_transaction`, `lifecycle_event`).
pub mod Outcome
use Prim.Native.String
use xyzzy.Prelude.{
  List, Option, Result, String, [], guard, if◌then◌else◌, ite, lookup, none, ok, some, str, ℕ, ◌++◌,
  ◌>>=◌, ◌>>◌, ◌∷◌,
}
use xyzzy.Models.{
  RunSettlement, agent_removed, approval_refused, end_turn, run_cancelled, settled,
  settlement_value,
}
use xyzzy.Delegation.{
  AgentTask, TaskState, TaskState-discrete, auth_required, canceled, in_terminal_states, rejected,
  working,
}
use xyzzy.Delegation.Parts.{delegate, text}
use xyzzy.Delegation.Rows.{
  RowError, TaskRows, append_message_in_transaction, for_execution, runtime_error,
  transition_in_transaction,
}

-- The `TASK_DELEGATED` event of a task's move, before it has a sequence.
pub record LifecycleEvent : Type 0 where
  pub event_room : String
  pub event_task : String
  pub event_context : String
  pub event_state : TaskState
  pub event_target : String
  pub event_delegator : Option String
  pub event_updated_at : ℕ
  pub actor_id : String
  pub actor_type : String

unfoldable pub lifecycle_event : AgentTask → String → String → LifecycleEvent
lifecycle_event task actor_id actor_type = record {
  event_room = task.room_id;
  event_task = task.task_id;
  event_context = task.context_id;
  event_state = task.state;
  event_target = task.target_agent_id;
  event_delegator = task.delegating_agent_id;
  event_updated_at = task.updated_at;
  actor_id = actor_id;
  actor_type = actor_type;
}

-- The output that answers the task, where the run ended its turn.
unfoldable pub settled_output : TaskRows → String → RunSettlement → Option String
settled_output db execution_id end_turn = lookup str execution_id db.output_contents
settled_output db execution_id _ = none

-- The `elif` ladder where no output answers the task.
unfoldable pub refusal_target : RunSettlement → TaskState → TaskState
refusal_target run_cancelled state = canceled
refusal_target agent_removed state = canceled
refusal_target approval_refused auth_required = rejected
refusal_target _ _ = TaskState.failed

-- `decided_by or "system"`
abbrev pub decider : String → String
decider decided_by = ite (str decided_by "") "system" decided_by

-- `if task.state is not AgentTaskState.WORKING: …`
unfoldable pub make_working :
    TaskRows → AgentTask → String → ℕ → Result RowError (TaskRows × AgentTask × List LifecycleEvent)
unfolding lifecycle_event
make_working db task decided_by now =
    ite (TaskState-discrete task.state working) (ok (db, task, [])) (do
      (db', task') ← transition_in_transaction db task.task_id task.state working "" now
      ok (db', task', lifecycle_event task' (decider decided_by) "system" ∷ []))

unfoldable pub settle_answered :
    TaskRows
    → AgentTask
    → String
    → String
    → String
    → ℕ
    → Result RowError (TaskRows × List LifecycleEvent)
unfolding lifecycle_event
settle_answered db task content decided_by message_id now = do
  (db₁, task₁, events) ← make_working db task decided_by now
  (db₂, _) ←
      append_message_in_transaction db₁ task₁.task_id delegate
        (record { kind = text; content = content; media_type = "text/plain" } ∷ []) message_id now
  (db₃, task₃) ← transition_in_transaction db₂ task₁.task_id task₁.state TaskState.completed "" now
  ok (db₃, events ++ lifecycle_event task₃ (decider decided_by) "system" ∷ [])

unfoldable pub settle_refused :
    TaskRows
    → AgentTask
    → RunSettlement
    → String
    → ℕ
    → Result RowError (TaskRows × List LifecycleEvent)
unfolding lifecycle_event refusal_target
settle_refused db task settlement decided_by now = do
  let reason = String.◌++◌ (String.◌++◌ "run settled (" (settlement_value settlement)) ")"
  (db', task') ←
      transition_in_transaction db task.task_id task.state (refusal_target settlement task.state)
        reason now
  ok (db', lifecycle_event task' (decider decided_by) "system" ∷ [])

unfoldable pub settle_for_execution_in_transaction :
    TaskRows
    → String
    → RunSettlement
    → String
    → String
    → ℕ
    → Result RowError (TaskRows × List LifecycleEvent)
settle_for_execution_in_transaction db execution_id settlement decided_by message_id now = do
  guard db.owns_current_transaction runtime_error
  elim (for_execution db execution_id) [
    | none ↦ ok (db, [])
    | some task ↦
        if in_terminal_states task.state
        then ok (db, [])
        else elim (settled_output db execution_id settlement) [
          | some content ↦ settle_answered db task content decided_by message_id now
          | none ↦ settle_refused db task settlement decided_by now
        ]
  ]
