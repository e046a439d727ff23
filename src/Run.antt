-- ===== src/Run.antt =====
-- Runs: an execution, the envelope of identity and authority around it, and the branch that owns it
-- (`Execution`, `AgentRun`, `Branch`, `TurnLock` of src/multiplayer/domain/models.py, `ExecutionRepo`
-- of src/multiplayer/db/repositories.py). Rows are dictionaries by primary key; `agent_runs` is one
-- by its unique column `execution_id`. A raise rolls the transaction back, so it leaves no rows.
-- Columns that no operation here reads are left out.
pub mod Callers
pub mod Envelope
pub mod Branches
pub mod Finish
pub mod Kept
pub mod Endings
pub mod Completing
pub mod Start
pub mod Status
pub mod Turns
pub mod Ended
pub mod Reached
pub mod Synced
pub mod Once
pub mod Started
pub mod History
pub mod Principals
use xyzzy.Prelude.{
  Bool, List, Option, Result, String, [], err, false, if◌then◌else◌, insert, ite, lookup, none, ok,
  some, str, true, ℕ, ◌&&◌, ◌+◌, ◌||◌, ◌∷◌,
}
use xyzzy.Models.{
  BranchStatus, ExecutionStatus, ExecutionStatus-discrete, HarnessState, RunSettlement,
  is_terminal_status,
}
use xyzzy.Json.{Json}
use xyzzy.Events.{RoomEvent}
use xyzzy.Delegation.Rows.{RowError, TaskRows}
use xyzzy.Delegation.Rows.Settling.{LifecycleEvent}

unfoldable pub HarnessState-discrete : Discrete HarnessState
HarnessState-discrete = hlevel

unfoldable pub BranchStatus-discrete : Discrete BranchStatus
BranchStatus-discrete = hlevel

pub data SessionStatus : Type 0 where
  session_created session_active session_paused session_completed session_failed : SessionStatus

pub data TurnLockStatus : Type 0 where
  active released : TurnLockStatus

pub record AgentSession : Type 0 where
  pub room_id : String
  pub status : SessionStatus
  pub ended_at : Option ℕ

-- `agent_task_id` stands in the rows of the tasks.
pub record Execution : Type 0 where
  pub execution_id : String
  pub session_id : String
  pub agent_id : String
  pub authorized_by : String
  pub branch_id : String
  pub run_id : Option String
  pub status : ExecutionStatus
  pub output_data : Option Json
  pub error : String
  pub completed_at : Option ℕ
  pub token_usage : ℕ
  pub dispatch_claim : Option String

pub record AgentRun : Type 0 where
  pub run_id : String
  pub agent_id : String
  pub room_id : String
  pub authorized_by : String
  pub acting_user_id : String
  pub lease_expires_at : ℕ
  pub harness_state : HarnessState
  pub settlement : Option RunSettlement
  pub attempts : ℕ
  pub max_attempts : ℕ
  pub settled_at : Option ℕ

pub record Branch : Type 0 where
  pub room_id : String
  pub status : BranchStatus
  pub lifecycle_managed : Bool
  pub updated_at : ℕ
  pub completed_at : Option ℕ

-- Only rooms are scopes.
pub record TurnLock : Type 0 where
  pub scope_id : String
  pub branch_id : String
  pub status : TurnLockStatus
  pub acquired_by : String
  pub acquired_at : ℕ
  pub released_at : Option ℕ
  pub release_reason : String

pub record Message : Type 0 where
  pub message_id : String
  pub room_id : String
  pub from_human : Bool
  pub content : String

-- An event before it has a sequence: one that the caller made, or one of those made here.
pub data Notice : Type 0 where
  given : RoomEvent → Notice
  run_settled : String → String → String → RunSettlement → String → Notice
  run_orphaned : String → String → String → String → Notice
  task_moved : LifecycleEvent → Notice
  branch_ended : String → String → BranchStatus → String → Notice
  lock_released : String → String → String → BranchStatus → String → Notice

-- `appended` holds, in order, what was handed to the append of Events.
pub record RunRows : Type 0 where
  pub executions : List (String × Execution)
  pub agent_runs : List (String × AgentRun)
  pub agent_sessions : List (String × AgentSession)
  pub branches : List (String × Branch)
  pub turn_locks : List (String × TurnLock)
  pub execution_callers : List (String × List String)
  pub execution_interventions : List (String × List String)  -- who steered an execution
  pub search_documents : List (String × String)
  pub messages : List (String × Message)
  pub tasks : TaskRows
  pub appended : List Notice

pub data RunError : Type 0 where
  domain_error value_error runtime_error integrity_error : RunError
  task_error : RowError → RunError

-- Whether an `UPDATE … WHERE` has a row to change.
abbrev pub any_row {ℓ} : {V : Type ℓ} → (String → V → Bool) → List (String × V) → Bool
any_row p [] = false
any_row p ((k, v) ∷ d) = p k v || any_row p d

abbrev pub status_is : ExecutionStatus → ExecutionStatus → Bool
status_is a b = ite (ExecutionStatus-discrete a b) true false

-- `UPDATE executions SET … WHERE execution_id = ? AND status = ?`, with
-- `_require_execution_transition`.
unfoldable pub update_execution_where :
    RunRows → String → ExecutionStatus → (Execution → Execution) → Result RunError RunRows
unfolding ExecutionStatus-discrete
update_execution_where db execution_id expected change =
    elim (lookup str execution_id db.executions) [
      | none ↦ err RunError.domain_error
      | some e ↦
          if status_is e.status expected
          then ok (record db { executions = insert str execution_id (change e) db.executions })
          else err RunError.domain_error
    ]

-- `if error: …`, `if output_data is not None: …`
abbrev pub or_kept_text : String → String → String
or_kept_text new old = ite (str new "") old new

abbrev pub or_kept {ℓ} : {A : Type ℓ} → Option A → Option A → Option A
or_kept none old = old
or_kept (some a) old = some a

unfoldable pub update_status :
    RunRows
    → String
    → ExecutionStatus
    → ExecutionStatus
    → Option Json
    → String
    → ℕ
    → Result RunError RunRows
update_status db execution_id status expected output_data error now =
    update_execution_where db execution_id expected (λ (e : Execution). record e {
      status = status;
      output_data = or_kept output_data e.output_data;
      error = or_kept_text error e.error;
      completed_at = if is_terminal_status status then some now else e.completed_at;
    })

unfoldable pub mark_running : RunRows → String → String → ExecutionStatus → Result RunError RunRows
mark_running db execution_id run_id expected =
    update_execution_where db execution_id expected
      (λ (e : Execution). record e { status = ExecutionStatus.running; run_id = some run_id })

-- The rows, and the total so far.
abbrev pub tokens_added : RunRows → String → ℕ → Option Execution → RunRows × ℕ
tokens_added db execution_id delta none = (db, 0)
tokens_added db execution_id delta (some e) = (
  record db {
    executions =
        insert str execution_id (record e { token_usage = e.token_usage + delta }) db.executions;
  },
  e.token_usage + delta,
)

unfoldable pub add_token_usage : RunRows → String → ℕ → RunRows × ℕ
add_token_usage db execution_id delta =
    tokens_added db execution_id delta (lookup str execution_id db.executions)

abbrev pub is_none {ℓ} : {A : Type ℓ} → Option A → Bool
is_none none = true
is_none (some _) = false

abbrev pub dispatched : RunRows → String → String → Execution → Bool → RunRows × Bool
dispatched db execution_id claim e false = (db, false)
dispatched db execution_id claim e true = (
  record db {
    executions = insert str execution_id (record e { dispatch_claim = some claim }) db.executions;
  },
  true,
)

abbrev pub claimed : RunRows → String → String → Option Execution → RunRows × Bool
claimed db execution_id claim none = (db, false)
claimed db execution_id claim (some e) =
    dispatched db execution_id claim e
      (status_is e.status ExecutionStatus.pending && is_none e.dispatch_claim)

unfoldable pub claim_for_dispatch : RunRows → String → String → RunRows × Bool
unfolding ExecutionStatus-discrete
claim_for_dispatch db execution_id claim =
    claimed db execution_id claim (lookup str execution_id db.executions)
