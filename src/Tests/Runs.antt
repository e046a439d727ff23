-- ===== src/Tests/Runs.antt =====
-- The runs' theorems on one branch with one execution.
use xyzzy.Prelude.{
  Result, String, [], arith, contains, err, false, insert, lookup, none, not, ok, refl, some, str,
  subst, sym, true, true≢false, ◌&&◌, ◌||◌, ◌∙◌, ◌∷◌, ◌≡◌,
}
use xyzzy.Models.{
  BranchStatus, ExecutionStatus, ExecutionStatus-discrete, HarnessState, is_terminal_status,
}
use xyzzy.Delegation.Rows.{for_execution}
use xyzzy.Delegation.Rows.Settling.{settle_for_execution_in_transaction}
use xyzzy.Run.{
  AgentRun, Branch, Execution, RunError, RunRows, TurnLock, active, session_active,
  update_execution_where,
}
use xyzzy.Run.Envelope.{settle_agent_run_in_transaction}
use xyzzy.Run.Branches.{
  end_branch, finish_managed_branch_if_terminal, is_ended, release_lock_of, statuses_of,
}
use xyzzy.Run.Turns.{IsLockTable}
use xyzzy.Run.Ended.{IsEnded, finish_managed_branch_lem}
use xyzzy.Run.Reached.{TurnSteps, branch_finished, steps-IsLockTable}
use xyzzy.Run.Finish.{
  append_notices, end_session, settle_and_finish, terminalize_without_output,
  terminalize_without_output_in_transaction,
}
use xyzzy.Run.Start.{bounding_principals_of, record_caller_in_transaction}
use xyzzy.Run.Once.{EndWrite, end_write, ends_once, without_output}
use xyzzy.Run.Synced.{IsSynced}
use xyzzy.Run.History.{RunSteps, run_ended, steps-IsSynced}
use xyzzy.Run.Principals.{bounding-record_caller, is_text}

abbrev execution_at : ExecutionStatus → Execution
execution_at status = record {
  execution_id = "x1";
  session_id = "s1";
  agent_id = "a1";
  authorized_by = "u1";
  branch_id = "b1";
  run_id = none;
  status = status;
  output_data = none;
  error = "";
  completed_at = none;
  token_usage = 0;
  dispatch_claim = none;
}

abbrev open_run : AgentRun
open_run = record {
  run_id = "run1";
  agent_id = "a1";
  room_id = "r1";
  authorized_by = "u1";
  acting_user_id = "u1";
  lease_expires_at = 90;
  harness_state = HarnessState.streaming;
  settlement = none;
  attempts = 0;
  max_attempts = 3;
  settled_at = none;
}

abbrev open_branch : Branch
open_branch = record {
  room_id = "r1";
  status = BranchStatus.running;
  lifecycle_managed = true;
  updated_at = 1;
  completed_at = none;
}

abbrev room_lock : TurnLock
room_lock = record {
  scope_id = "r1";
  branch_id = "b1";
  status = active;
  acquired_by = "u1";
  acquired_at = 1;
  released_at = none;
  release_reason = "";
}

abbrev one_run : ExecutionStatus → RunRows
one_run status = record {
  executions = ("x1", execution_at status) ∷ [];
  agent_runs = ("x1", open_run) ∷ [];
  agent_sessions = ("s1", record { room_id = "r1"; status = session_active; ended_at = none }) ∷ [];
  branches = ("b1", open_branch) ∷ [];
  turn_locks = ("l1", room_lock) ∷ [];
  execution_callers = [];
  execution_interventions = [];
  search_documents = [];
  messages = [];
  tasks = record {
    owns_current_transaction = false;
    agent_tasks = [];
    agent_task_chain = [];
    agent_task_messages = [];
    execution_tasks = [];
    output_contents = [];
  };
  appended = [];
}

one_run-IsLockTable : (status : ExecutionStatus) → IsLockTable (one_run status)
unfolding lookup
one_run-IsLockTable status = record {
  keyed = (refl, tt);
  one_active = λ j k a b hit hit' on on' e. only j a hit ∙ sym (only k b hit');
  in_room = λ k a hit. ground arith;
}
  where
    only : (i : String) (c : TurnLock) → lookup str i (("l1", room_lock) ∷ []) ≡ some c → i ≡ "l1"
    only i c hit = ground arith

finish_managed_branch_lem_example :
    ((true ≡ true)
      → IsEnded
          (finish_managed_branch_if_terminal (one_run ExecutionStatus.failed) "b1" "r1" "a1" 9).0
          "b1"
          (ExecutionStatus.failed ∷ []))
    × ((true ≡ false)
        → finish_managed_branch_if_terminal (one_run ExecutionStatus.failed) "b1" "r1" "a1" 9
          ≡ (one_run ExecutionStatus.failed, []))
unfolding lookup str is_ended statuses_of is_terminal_status
finish_managed_branch_lem_example =
    finish_managed_branch_lem (one_run ExecutionStatus.failed) "b1" "r1" "a1" 9 open_branch
      (one_run-IsLockTable ExecutionStatus.failed) refl refl refl ExecutionStatus.failed [] refl

steps-IsLockTable_example :
    IsLockTable
      (finish_managed_branch_if_terminal (one_run ExecutionStatus.failed) "b1" "r1" "a1" 9).0
steps-IsLockTable_example =
    steps-IsLockTable (one_run ExecutionStatus.failed)
      (finish_managed_branch_if_terminal (one_run ExecutionStatus.failed) "b1" "r1" "a1" 9).0
      (TurnSteps.more TurnSteps.still (branch_finished "b1" "r1" "a1" 9))
      (one_run-IsLockTable ExecutionStatus.failed)

abbrev failing : EndWrite
failing =
    without_output (execution_at ExecutionStatus.running) ExecutionStatus.failed "no answer" [] none
      "" none

-- The rows once the execution has failed.
abbrev rows_or : RunRows → Result RunError RunRows → RunRows
rows_or db (ok db') = db'
rows_or db (err _) = db

abbrev after_end : RunRows
after_end =
    rows_or (one_run ExecutionStatus.running)
      (end_write (one_run ExecutionStatus.running) failing "m1" 9)

failed_once : end_write (one_run ExecutionStatus.running) failing "m1" 9 ≡ ok after_end
unfolding end_write terminalize_without_output terminalize_without_output_in_transaction
    update_execution_where end_session settle_and_finish settle_agent_run_in_transaction
    settle_for_execution_in_transaction for_execution finish_managed_branch_if_terminal end_branch
    release_lock_of append_notices lookup str insert
failed_once = refl

ends_once_example : (e : RunError) × (end_write after_end failing "m2" 10 ≡ err e)
unfolding is_terminal_status ExecutionStatus-discrete
ends_once_example =
    ends_once (one_run ExecutionStatus.running) failing "m1" 9 after_end failed_once failing "m2" 10
      refl refl

going :
    (id : String) (e : Execution)
    → lookup str id (one_run ExecutionStatus.running).executions ≡ some e
    → is_terminal_status e.status ≡ false
unfolding lookup is_terminal_status ExecutionStatus-discrete
going id e hit =
    let same : e.status ≡ ExecutionStatus.running = ground arith in
    subst (λ s. is_terminal_status s ≡ false) (sym same) refl

steps-IsSynced_example : IsSynced after_end
steps-IsSynced_example =
    steps-IsSynced (one_run ExecutionStatus.running) after_end
      (RunSteps.more RunSteps.still (run_ended failing "m1" 9 after_end failed_once))
      (λ id e run hit over found. absurd (true≢false (sym over ∙ going id e hit)))

bounding-record_caller_example :
    (db' : RunRows) × (record_caller_in_transaction true (one_run ExecutionStatus.running) "x1" "u2"
      ≡ ok db')
    × ((j p : String)
        → contains str p (bounding_principals_of db' j) ≡ (
            contains str p (bounding_principals_of (one_run ExecutionStatus.running) j)
            || (not (is_text "u2" "") && (is_text j "x1" && is_text p "u2"))))
unfolding lookup str
bounding-record_caller_example =
    bounding-record_caller (one_run ExecutionStatus.running) "x1" "u2" _ refl
