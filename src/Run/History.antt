-- ===== src/Run/History.antt =====
-- The writes of the executions and their envelopes, in any order.
use xyzzy.Prelude.{
  Bool, Option, String, arith, false, lookup, none, ok, refl, some, str, subst, sym, true,
  update_all, updated, ℕ, ◌&&◌, ◌+◌, ◌≡◌,
}
use xyzzy.Models.{ExecutionStatus, ExecutionStatus-discrete, HarnessState, is_terminal_status}
use xyzzy.Json.{Json}
use xyzzy.Events.{RoomEvent}
use xyzzy.Run.{
  AgentRun, Execution, RunRows, add_token_usage, any_row, claim_for_dispatch, claimed, dispatched,
  is_none, mark_running, status_is, tokens_added, update_status,
}
use xyzzy.Run.Callers.{record_acting_callers}
use xyzzy.Run.Envelope.{advance, advances, is_settled, spend_attempt, spends}
use xyzzy.Run.Start.{start_with_event}
use xyzzy.Run.Once.{EndWrite, end_write, end_write-IsEnd, ended_id, read_status}
use xyzzy.Run.Started.{start-IsOpening, start-IsSynced}
use xyzzy.Run.Synced.{
  IsSynced, any_row-no, end-IsSynced, same_status-IsSynced, update_row-IsSynced,
  update_runs-IsSynced,
}

-- One write. An execution starts open, and only an end moves it to a terminal status.
pub data RunStep (db : RunRows) : RunRows → Type 0 where
  run_started :
      (execution : Execution) (agent_task_id : Option String) (event : RoomEvent)
      (agent_run : Option AgentRun) (new_branch_id : String) (now : ℕ) (db' : RunRows)
      → is_terminal_status execution.status ≡ false
      → start_with_event db execution agent_task_id event agent_run new_branch_id now ≡ ok db'
      → RunStep db db'
  run_moved :
      (execution_id : String) (status expected : ExecutionStatus) (output_data : Option Json)
      (error : String) (now : ℕ) (db' : RunRows)
      → is_terminal_status status ≡ false
      → update_status db execution_id status expected output_data error now ≡ ok db'
      → RunStep db db'
  run_marked :
      (execution_id run_id : String) (expected : ExecutionStatus) (db' : RunRows)
      → mark_running db execution_id run_id expected ≡ ok db'
      → RunStep db db'
  run_ended :
      (w : EndWrite) (message_id : String) (now : ℕ) (db' : RunRows)
      → end_write db w message_id now ≡ ok db'
      → RunStep db db'
  tokens_counted :
      (execution_id : String) (delta : ℕ) → RunStep db (add_token_usage db execution_id delta).0
  run_claimed :
      (execution_id claim : String) → RunStep db (claim_for_dispatch db execution_id claim).0
  run_advanced :
      (run_id : String) (state : HarnessState) (lease_expires_at : ℕ) (acting_user_id : String)
      (expected : Option HarnessState) (db' : RunRows) (moved : Bool)
      → advance db run_id state lease_expires_at acting_user_id expected ≡ ok (db', moved)
      → RunStep db db'
  attempt_spent : (run_id : String) (expected : ℕ) → RunStep db (spend_attempt db run_id expected).0

pub data RunSteps (db : RunRows) : RunRows → Type 0 where
  still : RunSteps db db
  more : {mid db' : RunRows} → RunSteps db mid → RunStep mid db' → RunSteps db db'

running-is_terminal : is_terminal_status ExecutionStatus.running ≡ false
unfolding is_terminal_status ExecutionStatus-discrete
running-is_terminal = refl

add_token_usage-IsSynced :
    (db : RunRows) (execution_id : String) (delta : ℕ)
    → IsSynced db
    → IsSynced (add_token_usage db execution_id delta).0
unfolding add_token_usage
add_token_usage-IsSynced db execution_id delta v =
    by_row (lookup str execution_id db.executions) refl
  where
    by_row :
        (o : Option Execution)
        → lookup str execution_id db.executions ≡ o
        → IsSynced (tokens_added db execution_id delta o).0
    by_row none hit = v
    by_row (some e) hit =
        same_status-IsSynced db execution_id e (record e { token_usage = e.token_usage + delta })
          hit refl v

claim_for_dispatch-IsSynced :
    (db : RunRows) (execution_id claim : String)
    → IsSynced db
    → IsSynced (claim_for_dispatch db execution_id claim).0
unfolding claim_for_dispatch
claim_for_dispatch-IsSynced db execution_id claim v =
    by_row (lookup str execution_id db.executions) refl
  where
    by_test :
        (e : Execution) (b : Bool)
        → lookup str execution_id db.executions ≡ some e
        → IsSynced (dispatched db execution_id claim e b).0
    by_test e true hit =
        same_status-IsSynced db execution_id e (record e { dispatch_claim = some claim }) hit refl v
    by_test e false hit = v

    by_row :
        (o : Option Execution)
        → lookup str execution_id db.executions ≡ o
        → IsSynced (claimed db execution_id claim o).0
    by_row none hit = v
    by_row (some e) hit =
        by_test e (status_is e.status ExecutionStatus.pending && is_none e.dispatch_claim) hit

advance-IsSynced :
    (db : RunRows) (run_id : String) (state : HarnessState) (lease_expires_at : ℕ)
    (acting_user_id : String) (expected : Option HarnessState) (db' : RunRows) (moved : Bool)
    → advance db run_id state lease_expires_at acting_user_id expected ≡ ok (db', moved)
    → IsSynced db
    → IsSynced db'
unfolding advance
advance-IsSynced db run_id state lease_expires_at acting_user_id expected db' moved h v =
    let change = λ (run : AgentRun). record run {
      harness_state = state;
      lease_expires_at = lease_expires_at;
      acting_user_id = acting_user_id;
    } in
    let guarded =
      λ (k : String) (run : AgentRun). advances run_id expected k run && is_settled run in
    let clear : any_row guarded db.agent_runs ≡ false = ground arith in
    let d : db' ≡ record db {
      agent_runs = update_all (advances run_id expected) change db.agent_runs;
      execution_callers =
          record_acting_callers (advances run_id expected) acting_user_id db.agent_runs
            db.execution_callers;
    } =
      ground arith in
    subst IsSynced (sym d) (
      update_runs-IsSynced db (advances run_id expected) change
        (λ k run hit done.
          let no : (advances run_id expected k run && is_settled run) ≡ false =
            any_row-no guarded db.agent_runs clear k run hit in
          let out : advances run_id expected k run ≡ false = ground arith in rw out done)
        v)

spend_attempt-IsSynced :
    (db : RunRows) (run_id : String) (expected : ℕ)
    → IsSynced db
    → IsSynced (spend_attempt db run_id expected).0
unfolding spend_attempt is_settled
spend_attempt-IsSynced db run_id expected v =
    update_runs-IsSynced db (spends run_id expected)
      (λ (run : AgentRun). record run { attempts = run.attempts + 1 })
      (λ k run hit done. by_test run (spends run_id expected k run) done) v
  where
    by_test :
        (run : AgentRun) (b : Bool)
        → is_settled run ≡ true
        → is_settled (updated b (λ (r : AgentRun). record r { attempts = r.attempts + 1 }) run)
          ≡ true
    by_test run true done = done
    by_test run false done = done

step-IsSynced : (db db' : RunRows) → RunStep db db' → IsSynced db → IsSynced db'
unfolding update_status mark_running
step-IsSynced db _
      (run_started execution agent_task_id event agent_run new_branch_id now db' live h) v =
    start-IsSynced db execution db'
      (start-IsOpening db execution agent_task_id event agent_run new_branch_id now db' h) live v
step-IsSynced db _ (run_moved execution_id status expected output_data error now db' live h) v =
    update_row-IsSynced db execution_id expected _ db' h (λ _. live) v
step-IsSynced db _ (run_marked execution_id run_id expected db' h) v =
    update_row-IsSynced db execution_id expected _ db' h (λ _. running-is_terminal) v
step-IsSynced db _ (run_ended w message_id now db' h) v =
    end-IsSynced db (ended_id w) (read_status w) db' (end_write-IsEnd db w message_id now db' h) v
step-IsSynced db _ (tokens_counted execution_id delta) v =
    add_token_usage-IsSynced db execution_id delta v
step-IsSynced db _ (run_claimed execution_id claim) v =
    claim_for_dispatch-IsSynced db execution_id claim v
step-IsSynced db _ (run_advanced run_id state lease_expires_at acting_user_id expected db' moved h)
      v =
    advance-IsSynced db run_id state lease_expires_at acting_user_id expected db' moved h v
step-IsSynced db _ (attempt_spent run_id expected) v = spend_attempt-IsSynced db run_id expected v

-- However executions are started, moved among the open statuses, claimed, counted and ended, and
-- their envelopes advanced and charged with attempts, in any order: where every execution that had
-- ended had its envelope settled, if it had one, that still holds.
pub steps-IsSynced : (db db' : RunRows) → RunSteps db db' → IsSynced db → IsSynced db'
steps-IsSynced db _ still v = v
steps-IsSynced db _ (more {mid} {db'} steps step) v =
    step-IsSynced mid db' step (steps-IsSynced db mid steps v)
