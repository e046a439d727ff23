-- ===== src/Run/Finish.antt =====
-- The two ways in which an execution ends: without an output, and with one
-- (`ExecutionRepo.terminalize_without_output_in_transaction`, `AgentOutputRepo.complete_execution` of
-- src/multiplayer/db/repositories.py).
use xyzzy.Prelude.{
  Bool, List, Option, Result, String, [], err, false, guard, if◌then◌else◌, insert, ite, lookup,
  map, none, not, ok, some, str, true, ℕ, ◌&&◌, ◌++◌, ◌>>=◌, ◌>>◌, ◌||◌, ◌∷◌,
}
use xyzzy.Models.{
  ExecutionStatus, ExecutionStatus-discrete, RunSettlement, end_turn, run_cancelled, run_failed,
}
use xyzzy.Json.{Json}
use xyzzy.Events.{RoomEvent}
use xyzzy.Run.{
  Execution, Message, Notice, RunError, RunRows, SessionStatus, given, is_none, session_completed,
  session_failed, status_is, update_execution_where,
}
use xyzzy.Run.Envelope.{require_open_agent_run, settle_agent_run_in_transaction}
use xyzzy.Run.Branches.{finish_managed_branch_if_terminal, get_active}

-- `decided_by or …`, and the settlement that a status stands for where none is given.
abbrev pub or_else : String → String → String
or_else a b = ite (str a "") b a

unfoldable pub default_settlement : Option RunSettlement → ExecutionStatus → RunSettlement
unfolding ExecutionStatus-discrete
default_settlement (some settlement) status = settlement
default_settlement none status =
    if status_is status ExecutionStatus.cancelled then run_cancelled else run_failed

abbrev pub ends_without_output : ExecutionStatus → Bool
ends_without_output status =
    status_is status ExecutionStatus.failed || status_is status ExecutionStatus.cancelled

-- `UPDATE sessions SET status = ?, ended_at = ? WHERE session_id = ?`
unfoldable pub end_session : RunRows → String → SessionStatus → ℕ → RunRows
end_session db session_id status now = elim (lookup str session_id db.agent_sessions) [
  | none ↦ db
  | some s ↦ record db {
    agent_sessions =
        insert str session_id (record s { status = status; ended_at = some now }) db.agent_sessions;
  }
]

unfoldable pub append_notices : RunRows → List Notice → RunRows
append_notices db notices = record db { appended = db.appended ++ notices }

-- The envelope, then the branch, then the events: the caller's first.
unfoldable pub settle_and_finish :
    RunRows
    → String
    → RunSettlement
    → String
    → Option ℕ
    → String
    → String
    → String
    → List RoomEvent
    → String
    → ℕ
    → Result RunError RunRows
unfolding append_notices
settle_and_finish db execution_id settlement decided_by expected_lease branch_id room_id agent_id
      events message_id now =
    do
      (db₁, settle_events) ←
          settle_agent_run_in_transaction db execution_id settlement decided_by expected_lease
            message_id now
      let (db₂, branch_events) =
          finish_managed_branch_if_terminal db₁ branch_id room_id agent_id now
      ok (append_notices db₂ (map given events ++ (settle_events ++ branch_events)))

-- `execution` is what the caller read.
unfoldable pub terminalize_without_output_in_transaction :
    RunRows
    → Execution
    → ExecutionStatus
    → String
    → List RoomEvent
    → Option RunSettlement
    → String
    → Option ℕ
    → String
    → ℕ
    → Result RunError RunRows
unfolding default_settlement ExecutionStatus-discrete end_session
terminalize_without_output_in_transaction db execution status error events settlement decided_by
      expected_lease message_id now =
    do
      guard (ends_without_output status) RunError.value_error
      guard db.tasks.owns_current_transaction RunError.runtime_error
      db₁ ←
          update_execution_where db execution.execution_id execution.status (λ (e : Execution).
            record e { status = status; error = error; completed_at = some now })
      let db₂ = end_session db₁ execution.session_id session_failed now
      elim (lookup str execution.session_id db₂.agent_sessions) [
        | none ↦ err RunError.value_error
        | some session ↦
            settle_and_finish db₂ execution.execution_id (default_settlement settlement status)
              (or_else decided_by execution.agent_id) expected_lease execution.branch_id
              session.room_id execution.agent_id events message_id now
      ]

-- `async with self.db.transaction()`: a transaction within one is refused.
abbrev pub owned_by : Bool → RunRows → RunRows
owned_by own db = record db { tasks = record db.tasks { owns_current_transaction = own } }

abbrev pub finished : Result RunError RunRows → Result RunError RunRows
finished (ok db) = ok (owned_by false db)
finished (err e) = err e

abbrev pub transaction : RunRows → (RunRows → Result RunError RunRows) → Result RunError RunRows
transaction db body = do
  guard (not db.tasks.owns_current_transaction) RunError.runtime_error
  finished (body (owned_by true db))

unfoldable pub terminalize_without_output :
    RunRows
    → Execution
    → ExecutionStatus
    → String
    → List RoomEvent
    → Option RunSettlement
    → String
    → Option ℕ
    → String
    → ℕ
    → Result RunError RunRows
terminalize_without_output db execution status error events settlement decided_by expected_lease
      message_id now =
    transaction db (λ (db' : RunRows).
      terminalize_without_output_in_transaction db' execution status error events settlement
        decided_by expected_lease message_id now)

pub record AgentOutput : Type 0 where
  pub output_id : String
  pub room_id : String
  pub session_id : String
  pub execution_id : String
  pub agent_id : String
  pub branch_id : String
  pub content : String
  pub output_data : Json

-- `INSERT INTO agent_outputs`, one to an execution, and its search document.
unfoldable pub insert_output : RunRows → AgentOutput → Result RunError RunRows
insert_output db output = elim (lookup str output.execution_id db.tasks.output_contents) [
  | some _ ↦ err RunError.integrity_error
  | none ↦ ok (record db {
    tasks = record db.tasks {
      output_contents = insert str output.execution_id output.content db.tasks.output_contents;
    };
    search_documents = insert str output.output_id output.content db.search_documents;
  })
]

-- `create_with_event_and_turn_guard_in_transaction`: people wait while a branch has the turn.
unfoldable pub post_message : RunRows → Message → RoomEvent → Result RunError RunRows
unfolding append_notices
post_message db message e = do
  guard db.tasks.owns_current_transaction RunError.runtime_error
  guard (not (message.from_human && not (is_none (get_active db.turn_locks message.room_id))))
      RunError.value_error
  elim (lookup str message.message_id db.messages) [
    | some _ ↦ err RunError.integrity_error
    | none ↦ ok (
        append_notices (record db { messages = insert str message.message_id message db.messages })
          (given e ∷ []))
  ]

abbrev pub post_if : RunRows → Option (Message × RoomEvent) → Result RunError RunRows
post_if db none = ok db
post_if db (some (message, e)) = post_message db message e

-- The body of the transaction.
unfoldable pub complete_in_transaction :
    RunRows
    → AgentOutput
    → List RoomEvent
    → ExecutionStatus
    → Option (Message × RoomEvent)
    → ℕ
    → String
    → ℕ
    → Result RunError RunRows
unfolding end_session post_message
complete_in_transaction db output events expected message token_usage message_id now = do
  require_open_agent_run db output.execution_id
  db₁ ← insert_output db output
  db₂ ← update_execution_where db₁ output.execution_id expected (λ (e : Execution). record e {
    status = ExecutionStatus.completed;
    output_data = some output.output_data;
    completed_at = some now;
    token_usage = token_usage;
  })
  db₃ ←
      settle_and_finish (end_session db₂ output.session_id session_completed now)
        output.execution_id end_turn output.agent_id none output.branch_id output.room_id
        output.agent_id events message_id now
  post_if db₃ message

unfoldable pub complete_execution :
    RunRows
    → AgentOutput
    → List RoomEvent
    → ExecutionStatus
    → Option (Message × RoomEvent)
    → ℕ
    → String
    → ℕ
    → Result RunError RunRows
complete_execution db output events expected message token_usage message_id now =
    transaction db (λ (db' : RunRows).
      complete_in_transaction db' output events expected message token_usage message_id now)
